-- ===== src/Analysis/Growth.antt =====
-- potential_block_entries up to the words of the sections: every step only adds executable words to
-- the set.
use psprism.Base.Outcomes.{done, bind-done, done_lem}
use psprism.Base.{ℕ, zero, suc, ◌+◌, ◌≡◌, refl, sym, subst, ◌∙◌, arith}
use psprism.Base.{inl, inr, List, [], ◌∷◌, Option, none, some, ltb, u32, length, Bool-cases}
use psprism.Base.Sets.{Grows, Grows-refl, Grows-trans, Grows-admit, Grows-if}
use psprism.Relocation.Records.{word_of}
use psprism.Elf.Types.{ElfImage, ExecutableSection}
use psprism.CodeMap.Types.{CodeMap}
use psprism.Analysis.Text.{starts_delayed_branch, needs_post_delay_entry}
use psprism.Analysis.Control.{direct_control_target, is_executable_word}
use psprism.Analysis.Entries.{
  add, add_all, boundaries_from, sections_from, first_boundary, add_map, add_optional, add_targets,
  words_from,
}
use psprism.Analysis.Entries.{section_words}

module _ (image : ElfImage) where
  -- Only executable words are added.
  abbrev pub GrowsTo : List ℕ → List ℕ → Type 0
  GrowsTo = Grows (is_executable_word image)

  abbrev pub same : (s : List ℕ) → GrowsTo s s
  same = Grows-refl (is_executable_word image)

  pub add-GrowsTo : (x : ℕ) (s : List ℕ) → GrowsTo s (add image x s)
  unfolding add
  add-GrowsTo x s = Grows-admit (is_executable_word image) x s

  pub add_all-GrowsTo : (xs s : List ℕ) → GrowsTo s (add_all image xs s)
  unfolding add_all
  add_all-GrowsTo [] s = same s
  add_all-GrowsTo (x ∷ xs) s = Grows-trans _ (add-GrowsTo x s) (add_all-GrowsTo xs (add image x s))

  pub boundaries_from-GrowsTo :
      (fuel shard_size end boundary : ℕ) (s : List ℕ) {s' : List ℕ}
      → boundaries_from image fuel shard_size end boundary s ≡ done s'
      → GrowsTo s s'
  unfolding boundaries_from
  boundaries_from-GrowsTo zero shard_size end boundary s h = elim (Bool-cases (ltb boundary end)) [
    | inl e ↦ absurd (ground (arith, e, h))
    | inr e ↦ subst (GrowsTo s) (done_lem (sym (rw e refl) ∙ h)) (same s)
  ]
  boundaries_from-GrowsTo (suc fuel) shard_size end boundary s h =
      elim (Bool-cases (ltb boundary end)) [
        | inl e ↦ Grows-trans _ (add-GrowsTo boundary s) (
            boundaries_from-GrowsTo fuel shard_size end (u32 (boundary + shard_size))
              (add image boundary s) (sym (rw (e, boundaries_from) refl) ∙ h))
        | inr e ↦ subst (GrowsTo s) (done_lem (sym (rw (e, boundaries_from) refl) ∙ h)) (same s)
      ]

  pub sections_from-GrowsTo :
      (shard_size : ℕ) (sections : List ExecutableSection) (s : List ℕ) {s' : List ℕ}
      → sections_from image shard_size sections s ≡ done s'
      → GrowsTo s s'
  unfolding sections_from
  sections_from-GrowsTo shard_size [] s h = subst (GrowsTo s) (done_lem h) (same s)
  sections_from-GrowsTo shard_size (section ∷ sections) s h =
      let (t, e, rest) =
        bind-done
          (boundaries_from image (section.address + length section.bytes) shard_size
            (section.address + length section.bytes) (first_boundary shard_size section.address)
            (add image section.address s))
          (sections_from image shard_size sections) h in
      Grows-trans _ (add-GrowsTo section.address s) (
        Grows-trans _
          (boundaries_from-GrowsTo (section.address + length section.bytes) shard_size
            (section.address + length section.bytes) (first_boundary shard_size section.address)
            (add image section.address s) e)
          (sections_from-GrowsTo shard_size sections t rest))

  pub add_map-GrowsTo : (map : Option CodeMap) (s : List ℕ) → GrowsTo s (add_map image map s)
  unfolding add_map
  add_map-GrowsTo none s = same s
  add_map-GrowsTo (some map) s =
      Grows-trans _ (add_all-GrowsTo map.function_starts s)
        (add_all-GrowsTo map.block_entries (add_all image map.function_starts s))

  add_optional-GrowsTo : (x : Option ℕ) (s : List ℕ) → GrowsTo s (add_optional image x s)
  add_optional-GrowsTo none s = same s
  add_optional-GrowsTo (some x) s = add-GrowsTo x s

  module _ (bases : ℕ → Option ℕ) where
    pub add_targets-GrowsTo :
        (pc word : ℕ) (s : List ℕ) → GrowsTo s (add_targets image bases pc word s)
    unfolding add_targets
    add_targets-GrowsTo pc word s =
        Grows-if _ (starts_delayed_branch word)
          (Grows-trans _
            (Grows-if _ (needs_post_delay_entry word) (add-GrowsTo (u32 (pc + 8)) s) (same s))
            (add_optional-GrowsTo (direct_control_target pc word bases image.preferred_base) _))
          (same s)

    pub words_from-GrowsTo :
        (pc : ℕ) (bytes s : List ℕ) {s' : List ℕ}
        → words_from image bases pc bytes s ≡ done s'
        → GrowsTo s s'
    unfolding words_from
    words_from-GrowsTo pc [] s h = subst (GrowsTo s) (done_lem h) (same s)
    words_from-GrowsTo pc (a ∷ b ∷ c ∷ d ∷ bytes) s h =
        Grows-trans _ (add_targets-GrowsTo pc (word_of a b c d) s) (
          words_from-GrowsTo (u32 (pc + 4)) bytes (add_targets image bases pc (word_of a b c d) s)
            h)
    words_from-GrowsTo pc (a ∷ []) s h = absurd cc
    words_from-GrowsTo pc (a ∷ b ∷ []) s h = absurd cc
    words_from-GrowsTo pc (a ∷ b ∷ c ∷ []) s h = absurd cc

    pub section_words-GrowsTo :
        (sections : List ExecutableSection) (s : List ℕ) {s' : List ℕ}
        → section_words image bases sections s ≡ done s'
        → GrowsTo s s'
    unfolding section_words
    section_words-GrowsTo [] s h = subst (GrowsTo s) (done_lem h) (same s)
    section_words-GrowsTo (section ∷ sections) s h =
        let (t, e, rest) =
          bind-done (words_from image bases section.address section.bytes s)
            (section_words image bases sections) h in
        Grows-trans _ (words_from-GrowsTo section.address section.bytes s e)
          (section_words-GrowsTo sections t rest)

-- ===== src/Analysis/Reached.antt =====
-- What the loops of potential_block_entries add.
use psprism.Base.Outcomes.{done, bind-done}
use psprism.Base.{ℕ, zero, suc, ◌+◌, ◌*◌, ◌≡◌, sym, subst, arith, Bool, true}
use psprism.Base.{
  false, ◌==◌, if◌then◌else◌, inl, inr, List, [], ◌∷◌, ◌++◌, map, Option, none, some,
}
use psprism.Base.{u32, IsU32, length, get_elem?, Bool-cases}
use psprism.Base.Sets.{has, has-admit, has-append}
use psprism.Relocation.Records.{word_of}
use psprism.Elf.Types.{ElfImage, ExecutableSection}
use psprism.CodeMap.Types.{CodeMap}
use psprism.Analysis.Text.{starts_delayed_branch, needs_post_delay_entry}
use psprism.Analysis.Control.{direct_control_target, is_executable_word}
use psprism.Analysis.Entries.{
  add, add_all, boundaries_from, first_boundary, sections_from, add_map, add_optional, add_targets,
  words_from, section_words,
}
use psprism.Analysis.Growth.{
  add-GrowsTo, sections_from-GrowsTo, section_words-GrowsTo, words_from-GrowsTo, add_all-GrowsTo,
  boundaries_from-GrowsTo,
}

-- The k-th word of some bytes.
abbrev pub nth_word : List ℕ → ℕ → Option ℕ
nth_word (a ∷ b ∷ c ∷ d ∷ bytes) zero = some (word_of a b c d)
nth_word (a ∷ b ∷ c ∷ d ∷ bytes) (suc k) = nth_word bytes k
nth_word _ _ = none

abbrev optional_list : Option ℕ → List ℕ
optional_list none = []
optional_list (some t) = t ∷ []

module _ (image : ElfImage) where
  -- The places that control can go on to after a delayed branch, its direct target and what follows
  -- its delay slot.
  abbrev pub successors : (ℕ → Option ℕ) → ℕ → ℕ → List ℕ
  successors bases pc word =
      u32 (pc + 8) ∷ optional_list (direct_control_target pc word bases image.preferred_base)

  pub has-add :
      (t : ℕ) (s : List ℕ) → is_executable_word image t ≡ true → has t (add image t s) ≡ true
  unfolding add
  has-add t s h = has-admit (is_executable_word image) t s h

  has-add_optional :
      (o : Option ℕ) (x t : ℕ) (s : List ℕ)
      → has t (x ∷ optional_list o) ≡ true
      → is_executable_word image t ≡ true
      → has t (add_optional image o (add image x s)) ≡ true
  unfolding has
  has-add_optional none x t s h e =
      let same : t ≡ x = ground (arith, h) in
      subst (λ y. has t (add image y s) ≡ true) same (has-add t s e)
  has-add_optional (some y) x t s h e = elim (Bool-cases (t == y)) [
    | inl f ↦
        let same : t ≡ y = ground (arith, f) in
        subst (λ z. has t (add image z (add image x s)) ≡ true) same (has-add t (add image x s) e)
    | inr f ↦
        let same : t ≡ x = ground (arith, f, h) in
        (add-GrowsTo image y (add image x s)).kept t
          (subst (λ z. has t (add image z s) ≡ true) same (has-add t s e))
  ]

  if-has :
      (b c : Bool) (o : Option ℕ) (x t : ℕ) (s : List ℕ)
      → b ≡ true
      → c ≡ true
      → has t (add_optional image o (add image x s)) ≡ true
      → has t (if b then add_optional image o (if c then add image x s else s) else s) ≡ true
  if-has true true o x t s p q h = h
  if-has true false o x t s p q h = absurd (ground (arith, q))
  if-has false c o x t s p q h = absurd (ground (arith, p))

  module _ (bases : ℕ → Option ℕ) (word t : ℕ) (branches : starts_delayed_branch word ≡ true)
      (code : is_executable_word image t ≡ true) where
    has-add_targets :
        (pc : ℕ) (s : List ℕ)
        → has t (successors bases pc word) ≡ true
        → has t (add_targets image bases pc word s) ≡ true
    unfolding add_targets
    has-add_targets pc s h =
        if-has (starts_delayed_branch word) (needs_post_delay_entry word)
          (direct_control_target pc word bases image.preferred_base) (u32 (pc + 8)) t s branches
          branches
          (has-add_optional (direct_control_target pc word bases image.preferred_base)
            (u32 (pc + 8)) t s h code)

    has-words_from :
        (pc k : ℕ) (bytes s : List ℕ) {s' : List ℕ}
        → IsU32 pc
        → nth_word bytes k ≡ some word
        → has t (successors bases (u32 (pc + 4 * k)) word) ≡ true
        → words_from image bases pc bytes s ≡ done s'
        → has t s' ≡ true
    unfolding words_from
    has-words_from pc zero (a ∷ b ∷ c ∷ d ∷ bytes) s fits w h r =
        let same : word_of a b c d ≡ word = cc in
        (words_from-GrowsTo image bases (u32 (pc + 4)) bytes
            (add_targets image bases pc (word_of a b c d) s) r).kept
          t
          (subst (λ v. has t (add_targets image bases pc v s) ≡ true) (sym same)
            (has-add_targets pc s
              (subst (λ p. has t (successors bases p word) ≡ true) {y = pc} (omega arith) h)))
    has-words_from pc (suc k) (a ∷ b ∷ c ∷ d ∷ bytes) s fits w h r =
        has-words_from (u32 (pc + 4)) k bytes (add_targets image bases pc (word_of a b c d) s)
          (omega arith) w
          (subst (λ p. has t (successors bases p word) ≡ true) {y = u32 (u32 (pc + 4) + 4 * k)}
            (omega arith) h)
          r
    has-words_from pc k [] s fits w h r = absurd cc
    has-words_from pc k (a ∷ []) s fits w h r = absurd cc
    has-words_from pc k (a ∷ b ∷ []) s fits w h r = absurd cc
    has-words_from pc k (a ∷ b ∷ c ∷ []) s fits w h r = absurd cc

    pub has-section_words :
        (i k : ℕ) (sections : List ExecutableSection) (section : ExecutableSection) (s : List ℕ)
        {s' : List ℕ}
        → get_elem? sections i ≡ some section
        → IsU32 section.address
        → nth_word section.bytes k ≡ some word
        → has t (successors bases (u32 (section.address + 4 * k)) word) ≡ true
        → section_words image bases sections s ≡ done s'
        → has t s' ≡ true
    unfolding section_words
    has-section_words i k [] section s at fits w h r = absurd cc
    has-section_words zero k (x ∷ xs) section s at fits w h r =
        let (s1, e, rest) =
          bind-done (words_from image bases x.address x.bytes s) (section_words image bases xs) r in
        let same : x ≡ section = cc in
        (section_words-GrowsTo image bases xs s1 rest).kept t (
          has-words_from section.address k section.bytes s fits w h
            (subst (λ y. words_from image bases y.address y.bytes s ≡ done s1) same e))
    has-section_words (suc i) k (x ∷ xs) section s at fits w h r =
        let (s1, e, rest) =
          bind-done (words_from image bases x.address x.bytes s) (section_words image bases xs) r in
        has-section_words i k xs section s1 at fits w h rest

  -- The addresses that the analysis is given: the entry, the sections' starts and the code map's.
  abbrev pub map_list : Option CodeMap → List ℕ
  map_list none = []
  map_list (some map) = map.function_starts ++ map.block_entries

  abbrev pub roots : Option CodeMap → ℕ → List ℕ
  roots code_map entry =
      entry ∷ map (λ section. section.address) image.executable_sections ++ map_list code_map

  module _ (t : ℕ) (code : is_executable_word image t ≡ true) where
    has-add_all : (xs s : List ℕ) → has t xs ≡ true → has t (add_all image xs s) ≡ true
    unfolding has add_all
    has-add_all [] s h = absurd (ground (arith, h))
    has-add_all (x ∷ xs) s h = elim (Bool-cases (t == x)) [
      | inl e ↦
          let here : t ≡ x = ground (arith, e) in
          (add_all-GrowsTo image xs (add image x s)).kept t
            (subst (λ y. has t (add image y s) ≡ true) here (has-add t s code))
      | inr e ↦ has-add_all xs (add image x s) (ground (arith, e, h))
    ]

    pub has-add_map :
        (m : Option CodeMap) (s : List ℕ)
        → has t (map_list m) ≡ true
        → has t (add_map image m s) ≡ true
    unfolding has add_map
    has-add_map none s h = absurd (ground (arith, h))
    has-add_map (some m) s h = elim (Bool-cases (has t m.function_starts)) [
      | inl e ↦
          (add_all-GrowsTo image m.block_entries (add_all image m.function_starts s)).kept t
            (has-add_all m.function_starts s e)
      | inr e ↦
          has-add_all m.block_entries (add_all image m.function_starts s)
            (ground (arith, e, h, has-append t m.function_starts m.block_entries))
    ]

    pub has-sections_from :
        (shard_size : ℕ) (sections : List ExecutableSection) (s : List ℕ) {s' : List ℕ}
        → has t (map (λ section. section.address) sections) ≡ true
        → sections_from image shard_size sections s ≡ done s'
        → has t s' ≡ true
    unfolding has sections_from
    has-sections_from shard_size [] s h r = absurd (ground (arith, h))
    has-sections_from shard_size (x ∷ xs) s h r =
        let end = x.address + length x.bytes in
        let (s1, e, rest) =
          bind-done
            (boundaries_from image end shard_size end (first_boundary shard_size x.address)
              (add image x.address s))
            (sections_from image shard_size xs) r in
        elim (Bool-cases (t == x.address)) [
          | inl f ↦
              let here : t ≡ x.address = ground (arith, f) in
              (sections_from-GrowsTo image shard_size xs s1 rest).kept t (
                (boundaries_from-GrowsTo image end shard_size end
                    (first_boundary shard_size x.address) (add image x.address s) e).kept
                  t (subst (λ y. has t (add image y s) ≡ true) here (has-add t s code)))
          | inr f ↦ has-sections_from shard_size xs s1 (ground (arith, f, h)) rest
        ]

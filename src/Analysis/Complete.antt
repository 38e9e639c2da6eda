-- ===== src/Analysis/Complete.antt =====
-- Which addresses potential_block_entries has.
use psprism.Base.Outcomes.{done, bind-done, done_lem}
use psprism.Base.{ℕ, ◌+◌, ◌*◌, ◌≡◌, sym, subst, ◌∙◌, arith, true}
use psprism.Base.{◌==◌, inl, inr, List, [], map, Option, some}
use psprism.Base.{u32, IsU32, get_elem?, Bool-cases}
use psprism.Base.Sets.{has, Grows-trans, IsAscending, has-append}
use psprism.Elf.Types.{ElfImage, ExecutableSection}
use psprism.Elf.Image.{memory_image}
use psprism.CodeMap.Types.{CodeMap}
use psprism.Analysis.Types.{from_result}
use psprism.Analysis.Text.{starts_delayed_branch}
use psprism.Analysis.Control.{jump_relocation_bases, is_executable_word}
use psprism.Analysis.Entries.{add, sections_from, add_map, section_words}
use psprism.Analysis.Entries.{potential_block_entries}
use psprism.Analysis.Growth.{
  GrowsTo, add-GrowsTo, sections_from-GrowsTo, add_map-GrowsTo, section_words-GrowsTo,
}
use psprism.Analysis.Pointers.{finish-GrowsTo}
use psprism.Analysis.Reached.{
  nth_word, successors, has-add, has-section_words, map_list, roots, has-add_map, has-sections_from,
}

module _ (image : ElfImage) where
  -- The sets after the boundaries and after the words, of a run that is done.
  module _ (code_map : Option CodeMap) (entry shard_size : ℕ) {entries : List ℕ}
      (run : potential_block_entries image code_map entry shard_size ≡ done entries) where
    stages :
        (bounded reached : List ℕ) × (sections_from image shard_size image.executable_sections
            (add image entry [])
          ≡ done bounded)
        × (section_words image
              (jump_relocation_bases image)
              image.executable_sections
              (add_map image code_map bounded)
            ≡ done reached)
        × GrowsTo image reached entries
    unfolding potential_block_entries
    stages =
        let (bounded, e, r) =
          bind-done (sections_from image shard_size image.executable_sections (add image entry []))
            _ run in
        let (reached, f, r') =
          bind-done
            (section_words image (jump_relocation_bases image) image.executable_sections
              (add_map image code_map bounded))
            _ r in
        let (memory, g, r'') = bind-done (from_result (memory_image image.load_segments)) _ r' in
        (
          bounded,
          reached,
          e,
          f,
          subst (GrowsTo image reached) (done_lem r'') (finish-GrowsTo image memory reached),
        )

    whole-GrowsTo : GrowsTo image [] entries
    whole-GrowsTo =
        let (bounded, reached, e, f, g) = stages in
        Grows-trans _ (add-GrowsTo image entry []) (
          Grows-trans _ (sections_from-GrowsTo image shard_size image.executable_sections _ e) (
            Grows-trans _ (add_map-GrowsTo image code_map bounded) (
              Grows-trans _
                (section_words-GrowsTo image (jump_relocation_bases image) image.executable_sections
                  _ f)
                g)))

    -- The entries are in ascending order, and each is an executable word: an aligned address with its
    -- four bytes in one executable section.
    pub potential_block_entries-is_executable_word :
        (t : ℕ) → has t entries ≡ true → (is_executable_word image t ≡ true) × IsAscending entries
    unfolding has
    potential_block_entries-is_executable_word t h = (
      elim (whole-GrowsTo.fresh t h) [ inl e ↦ absurd (ground (arith, e)) | inr e ↦ e ],
      whole-GrowsTo.ordered tt,
    )

    member :
        (t : ℕ)
        → (is_executable_word image t ≡ true → has t entries ≡ true)
        → has t entries ≡ is_executable_word image t
    member t h = elim (Bool-cases (is_executable_word image t)) [
      | inl e ↦ h e ∙ sym e
      | inr e ↦ elim (Bool-cases (has t entries)) [
        | inl f ↦ absurd (ground (arith, e, (potential_block_entries-is_executable_word t f).0))
        | inr f ↦ f ∙ sym e
      ]
    ]

    -- The entry point, the starts of the executable sections, and the function starts and block entries
    -- of the code map are entries exactly if they are executable words.
    pub potential_block_entries-roots :
        (t : ℕ)
        → has t (roots image code_map entry) ≡ true
        → has t entries ≡ is_executable_word image t
    unfolding has
    potential_block_entries-roots t h =
        let (bounded, reached, e, f, g) = stages in
        let sections = image.executable_sections in
        let starts = map (λ (section : ExecutableSection). section.address) sections in
        member t (λ code. g.kept t (
          (section_words-GrowsTo image (jump_relocation_bases image) sections
              (add_map image code_map bounded) f).kept
            t
            (elim (Bool-cases (t == entry)) [
              | inl x ↦
                  let here : t ≡ entry = ground (arith, x) in
                  (add_map-GrowsTo image code_map bounded).kept t (
                    (sections_from-GrowsTo image shard_size sections (add image entry []) e).kept t
                      (subst (λ y. has t (add image y []) ≡ true) here (has-add image t [] code)))
              | inr x ↦ elim (Bool-cases (has t starts)) [
                | inl y ↦
                    (add_map-GrowsTo image code_map bounded).kept t
                      (has-sections_from image t code shard_size sections (add image entry []) y e)
                | inr y ↦
                    has-add_map image t code code_map bounded
                      (ground (arith, x, y, h, has-append t starts (map_list image code_map)))
              ]
            ])))

    -- For the k-th word of an executable section, if it decodes to a delayed branch: its direct
    -- target, where it has one, and the address after its delay slot are entries exactly if they are
    -- executable words. The section's address has 32 bits.
    pub potential_block_entries-successors :
        (i k : ℕ) (section : ExecutableSection) (word t : ℕ)
        → get_elem? image.executable_sections i ≡ some section
        → IsU32 section.address
        → nth_word section.bytes k ≡ some word
        → starts_delayed_branch word ≡ true
        → has t
            (successors image (jump_relocation_bases image) (u32 (section.address + 4 * k)) word)
          ≡ true
        → has t entries ≡ is_executable_word image t
    potential_block_entries-successors i k section word t at fits w branches h =
        let (bounded, reached, e, f, g) = stages in
        member t (λ code. g.kept t (
          has-section_words image (jump_relocation_bases image) word t branches code i k
            image.executable_sections section (add_map image code_map bounded) at fits w h f))

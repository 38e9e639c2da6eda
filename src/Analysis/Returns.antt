-- ===== src/Analysis/Returns.antt =====
-- When discover_functions returns its functions.
use psprism.Base.{
  ℕ, ◌+◌, ◌%◌, ◌^◌, ◌<◌, ◌≡◌, refl, subst, arith, Bool, true, false, leb, ◌==◌, if◌then◌else◌,
}
use psprism.Base.{List, [], ◌∷◌, map, Option, none, some, u32, length, All, inl, inr, List-cases}
use psprism.Base.Outcomes.{done, wild}
use psprism.Relocation.Encode.{Relocation}
use psprism.Relocation.Records.{word_of}
use psprism.Elf.Types.{ElfImage, ExecutableSection, LoadSegment, ok}
use psprism.Elf.Bytes.{is_truncated}
use psprism.Elf.Image.{memory_image}
use psprism.CodeMap.Types.{CodeMap}
use psprism.Analysis.Types.{Outcome, DiscoveredFunction}
use psprism.Analysis.Control.{find_load_segment, jump_relocation_bases}
use psprism.Analysis.Entries.{word_at}
use psprism.Analysis.Functions.{
  add_word, add_start, add_starts, add_hints, scan_words, scan_sections, read_pointer,
  read_pointers, search_starts, find_starts, function_at, discover_functions,
}

-- A section of whole words.
abbrev pub IsWhole : ExecutableSection → Type 0
IsWhole section = length section.bytes % 4 ≡ 0

-- The word that a relocation patches ends within the 32-bit address space.
abbrev pub EndsBelow : ElfImage → Relocation → Type 0
EndsBelow image r = elim (find_load_segment image r.patch_segment) [
  | none ↦ Unit
  | some patch ↦ u32 (patch.address + r.offset) + 4 < 2 ^ 32
]

module _ (image : ElfImage) where
  at_patch :
      (r : Relocation) {patch : LoadSegment}
      → find_load_segment image r.patch_segment ≡ some patch
      → EndsBelow image r
      → u32 (patch.address + r.offset) + 4 < 2 ^ 32
  at_patch r e h =
      subst
        (λ (o : Option LoadSegment). elim o as (λ x. Type 0) [
          | none ↦ Unit
          | some p ↦ u32 (p.address + r.offset) + 4 < 2 ^ 32
        ])
        e h

  abbrev Returns : Outcome (List ℕ) → Type 0
  Returns o = (s : List ℕ) × (o ≡ done s)

  scan_words-done :
      (bases : ℕ → Option ℕ) (pc : ℕ) (bytes s : List ℕ)
      → length bytes % 4 ≡ 0
      → Returns (scan_words image bases pc bytes s)
  unfolding scan_words
  scan_words-done bases pc [] s h = (s, refl)
  scan_words-done bases pc (a ∷ b ∷ c ∷ d ∷ bytes) s h =
      scan_words-done bases (u32 (pc + 4)) bytes
        (add_word image bases pc (word_of a b c d) (length bytes) s) (omega arith)
  scan_words-done bases pc (a ∷ []) s h = absurd (omega arith)
  scan_words-done bases pc (a ∷ b ∷ []) s h = absurd (omega arith)
  scan_words-done bases pc (a ∷ b ∷ c ∷ []) s h = absurd (omega arith)

  scan_sections-done :
      (bases : ℕ → Option ℕ) (sections : List ExecutableSection) (s : List ℕ)
      → All IsWhole sections
      → Returns (scan_sections image bases sections s)
  unfolding scan_sections
  scan_sections-done bases [] s h = (s, refl)
  scan_sections-done bases (x ∷ xs) s (q, h) =
      let (s1, e) = scan_words-done bases x.address x.bytes s q in
      let (s2, f) = scan_sections-done bases xs s1 h in (s2, rw e f)

  if-Returns :
      (b : Bool) (x y : Outcome (List ℕ))
      → (b ≡ true → Returns x)
      → Returns y
      → Returns (if b then x else y)
  if-Returns true x y h k = h refl
  if-Returns false x y h k = k

  -- A word that ends below 2^32 and within the memory is there.
  inside :
      (memory : List ℕ) (address : ℕ)
      → address + 4 < 2 ^ 32
      → leb (u32 (address + 4)) (length memory) ≡ true
      → is_truncated memory address 4 ≡ false
  inside memory address h e = ground (arith, h, e)

  elim-Returns {ℓ} :
      {A : Type ℓ} (o : Option A) (x : Outcome (List ℕ)) (f : A → Outcome (List ℕ))
      → Returns x
      → ((a : A) → o ≡ some a → Returns (f a))
      → Returns (elim o [ none ↦ x | some a ↦ f a ])
  elim-Returns none x f h k = h
  elim-Returns (some a) x f h k = k a refl

  read_pointer-done :
      (memory : List ℕ) (r : Relocation) (s : List ℕ)
      → EndsBelow image r
      → Returns (read_pointer image memory r s)
  unfolding read_pointer
  read_pointer-done memory r s h =
      let address = λ (patch : LoadSegment). u32 (patch.address + r.offset) in
      let stay : Returns (done s) = (s, refl) in
      let read = λ (patch target : LoadSegment).
        if is_truncated memory (address patch) 4
        then wild
        else done (add_start image (u32 (word_at memory (address patch) + target.address)) s) in
      let test = λ (patch : LoadSegment). leb (u32 (address patch + 4)) (length memory) in
      let choose =
        λ (patch target : LoadSegment). if test patch then read patch target else done s in
      if-Returns (r.type == 2)
        (elim (find_load_segment image r.patch_segment) [
          | none ↦ done s
          | some patch ↦ elim (find_load_segment image r.target_segment) [
            | none ↦ done s
            | some target ↦ choose patch target
          ]
        ])
        (done s)
        (λ pointer.
          elim-Returns (find_load_segment image r.patch_segment) (done s)
            (λ patch. elim (find_load_segment image r.target_segment) [
              | none ↦ done s
              | some target ↦ choose patch target
            ])
            stay
            (λ patch e.
              elim-Returns (find_load_segment image r.target_segment) (done s)
                (λ target. choose patch target) stay
                (λ target f.
                  if-Returns (test patch) (read patch target) (done s)
                    (λ fits.
                      let there = inside memory (address patch) (at_patch r e h) fits in
                      (
                        add_start image (u32 (word_at memory (address patch) + target.address)) s,
                        rw there refl,
                      ))
                    stay)))
        stay

  read_pointers-done :
      (memory : List ℕ) (rs : List Relocation) (s : List ℕ)
      → All (EndsBelow image) rs
      → Returns (read_pointers image memory rs s)
  unfolding read_pointers
  read_pointers-done memory [] s h = (s, refl)
  read_pointers-done memory (r ∷ rs) s (q, h) =
      let (s1, e) = read_pointer-done memory r s q in
      let (s2, f) = read_pointers-done memory rs s1 h in (s2, rw e f)

  module _ {memory : List ℕ} (m : memory_image image.load_segments ≡ ok memory)
      (whole : All IsWhole image.executable_sections)
      (below : All (EndsBelow image) image.relocations) where
    search_starts-done : (code_map : Option CodeMap) → Returns (search_starts image code_map)
    unfolding search_starts
    search_starts-done code_map =
        let opened =
          add_starts image (map (λ (x : ExecutableSection). x.address) image.executable_sections)
            (add_hints image code_map (add_start image image.entry [])) in
        let (s1, e) =
          scan_sections-done (jump_relocation_bases image) image.executable_sections opened whole in
        let (s2, f) = read_pointers-done memory image.relocations s1 below in (s2, rw e (rw m f))

    find_starts-done : (code_map : Option CodeMap) → Returns (find_starts image code_map)
    unfolding find_starts
    find_starts-done none = search_starts-done none
    find_starts-done (some map) = elim (List-cases map.function_starts) [
      | inl e ↦ rw (e, find_starts) (search_starts-done (some map))
      | inr (x, xs, e) ↦ rw (e, find_starts) (add_starts image (x ∷ xs) [], refl)
    ]

    -- The functions are returned, with every code map and without one, if the memory image does not
    -- throw, every executable section is of whole words, and no relocation whose segment is loaded
    -- patches a word that reaches the end of the 32-bit address space.
    pub discover_functions-returns :
        (code_map : Option CodeMap)
        → (functions : List DiscoveredFunction) × (discover_functions image code_map
            ≡ done functions)
    unfolding discover_functions
    discover_functions-returns code_map =
        let (s, e) = find_starts-done code_map in (map (function_at code_map) s, rw e refl)

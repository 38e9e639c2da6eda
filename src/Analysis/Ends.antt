-- ===== src/Analysis/Ends.antt =====
-- When the loops of potential_block_entries end, and when the boundaries do not.
use psprism.Base.Outcomes.{done, endless}
use psprism.Base.{ℕ, zero, suc, ◌+◌, ◌*◌, ◌%◌, ◌^◌, ◌≤◌, ◌<◌, ◌≡◌, refl, subst, arith}
use psprism.Base.{ap, List, [], ◌∷◌, Option, ltb, u32, length, All, inl, inr, Bool-cases}
use psprism.Relocation.Records.{word_of}
use psprism.Elf.Types.{ElfImage, ExecutableSection, ok}
use psprism.Elf.Image.{memory_image}
use psprism.CodeMap.Types.{CodeMap}
use psprism.Analysis.Control.{jump_relocation_bases}
use psprism.Analysis.Entries.{
  add, boundaries_from, first_boundary, sections_from, add_map, add_targets, words_from,
  section_words,
}
use psprism.Analysis.Entries.{add_raw, pairs_from, pointers_from, potential_block_entries}

-- A section of whole words that ends a shard before the end of the address space.
abbrev pub IsBounded : ℕ → ExecutableSection → Type 0
IsBounded shard_size section =
    (section.address + length section.bytes + shard_size ≤ 2 ^ 32) × (length section.bytes % 4 ≡ 0)

module _ (image : ElfImage) where
  boundaries_from-done :
      (fuel shard_size end boundary : ℕ) (s : List ℕ)
      → 1 ≤ shard_size
      → end + shard_size ≤ 2 ^ 32
      → end ≤ boundary + fuel
      → (s' : List ℕ) × (boundaries_from image fuel shard_size end boundary s ≡ done s')
  unfolding boundaries_from
  boundaries_from-done zero shard_size end boundary s p q h = (s, ground (arith))
  boundaries_from-done (suc fuel) shard_size end boundary s p q h =
      elim (Bool-cases (ltb boundary end)) [
        | inl e ↦
            rw (e, boundaries_from)
              (boundaries_from-done fuel shard_size end (u32 (boundary + shard_size))
                (add image boundary s) p q (ground (arith, e)))
        | inr e ↦ rw (e, boundaries_from) (s, refl)
      ]

  sections_from-done :
      (shard_size : ℕ) (sections : List ExecutableSection) (s : List ℕ)
      → 1 ≤ shard_size
      → All (IsBounded shard_size) sections
      → (s' : List ℕ) × (sections_from image shard_size sections s ≡ done s')
  unfolding sections_from
  sections_from-done shard_size [] s p h = (s, refl)
  sections_from-done shard_size (x ∷ xs) s p ((q, q'), h) =
      let end = x.address + length x.bytes in
      let (s1, e) =
        boundaries_from-done end shard_size end (first_boundary shard_size x.address)
          (add image x.address s) p q (omega arith) in
      let (s2, f) = sections_from-done shard_size xs s1 p h in (s2, rw e f)

  words_from-done :
      (bases : ℕ → Option ℕ) (pc : ℕ) (bytes s : List ℕ)
      → length bytes % 4 ≡ 0
      → (s' : List ℕ) × (words_from image bases pc bytes s ≡ done s')
  unfolding words_from
  words_from-done bases pc [] s h = (s, refl)
  words_from-done bases pc (a ∷ b ∷ c ∷ d ∷ bytes) s h =
      words_from-done bases (u32 (pc + 4)) bytes (add_targets image bases pc (word_of a b c d) s)
        (omega arith)
  words_from-done bases pc (a ∷ []) s h = absurd (omega arith)
  words_from-done bases pc (a ∷ b ∷ []) s h = absurd (omega arith)
  words_from-done bases pc (a ∷ b ∷ c ∷ []) s h = absurd (omega arith)

  section_words-done :
      (bases : ℕ → Option ℕ) (shard_size : ℕ) (sections : List ExecutableSection) (s : List ℕ)
      → All (IsBounded shard_size) sections
      → (s' : List ℕ) × (section_words image bases sections s ≡ done s')
  unfolding section_words
  section_words-done bases shard_size [] s h = (s, refl)
  section_words-done bases shard_size (x ∷ xs) s ((q, q'), h) =
      let (s1, e) = words_from-done bases x.address x.bytes s q' in
      let (s2, f) = section_words-done bases shard_size xs s1 h in (s2, rw e f)

  -- The analysis ends and returns a set, if the shard size is not 0, every executable section is of
  -- whole words and ends at least a shard before the end of the 32-bit address space, and the memory
  -- image does not throw.
  pub potential_block_entries-returns :
      (code_map : Option CodeMap) (entry shard_size : ℕ) {memory : List ℕ}
      → 1 ≤ shard_size
      → All (IsBounded shard_size) image.executable_sections
      → memory_image image.load_segments ≡ ok memory
      → (entries : List ℕ) × (potential_block_entries image code_map entry shard_size
          ≡ done entries)
  unfolding potential_block_entries
  potential_block_entries-returns code_map entry shard_size {memory = memory} p bounds m =
      let bases = jump_relocation_bases image in
      let (s1, e) =
        sections_from-done shard_size image.executable_sections (add image entry []) p bounds in
      let (s2, f) =
        section_words-done bases shard_size image.executable_sections (add_map image code_map s1)
          bounds in
      (
        pointers_from image memory image.relocations
            (pairs_from image memory image.relocations (add_raw image memory s2)),
        rw e (rw f (rw m refl)),
      )

mul_mono : (m n k : ℕ) → m ≤ n → m * k ≤ n * k
mul_mono zero n k h = omega arith
mul_mono (suc m) zero k h = absurd (omega arith)
mul_mono (suc m) (suc n) k h = omega (arith, mul_mono m n k (omega arith), suc_mul m k, suc_mul n k)
  where
    suc_mul : (m k : ℕ) → suc m * k ≡ m * k + k
    suc_mul m k = omega arith

module _ (image : ElfImage) (count shard_size end : ℕ) (whole : suc count * shard_size ≡ 2 ^ 32)
    (late : count * shard_size < end) where
  -- Where the shard size divides the address space and a section ends in its last shard, the loop over
  -- the boundaries from any multiple of the shard size on does not end: no fuel is enough, because the
  -- 32-bit address starts again at 0.
  pub boundaries_from-endless :
      (fuel m : ℕ) (s : List ℕ)
      → m ≤ count
      → boundaries_from image fuel shard_size end (m * shard_size) s ≡ endless
  unfolding boundaries_from
  boundaries_from-endless zero m s h = ground (arith, mul_mono m count shard_size h, late)
  boundaries_from-endless (suc fuel) m s h = elim (Bool-cases (ltb (m * shard_size) end)) [
    | inl e ↦
        rw (e, boundaries_from)
          (elim (Bool-cases (ltb m count)) [
            | inl f ↦
                subst
                  (λ b.
                    boundaries_from image fuel shard_size end b (add image (m * shard_size) s)
                    ≡ endless)
                  {x = suc m * shard_size} {y = u32 (m * shard_size + shard_size)}
                  (ground (arith, mul_mono (suc m) count shard_size, late, whole, f))
                  (boundaries_from-endless fuel (suc m) (add image (m * shard_size) s)
                    (ground (arith, f)))
            | inr f ↦
                let last : m ≡ count = ground (arith, f, h) in
                subst
                  (λ b.
                    boundaries_from image fuel shard_size end b (add image (m * shard_size) s)
                    ≡ endless)
                  {x = 0 * shard_size} {y = u32 (m * shard_size + shard_size)}
                  (ground (arith, ap (λ (t : ℕ). t * shard_size) last, whole))
                  (boundaries_from-endless fuel 0 (add image (m * shard_size) s) (omega arith))
          ])
    | inr e ↦ absurd (ground (arith, e, mul_mono m count shard_size h, late))
  ]

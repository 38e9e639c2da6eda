-- ===== src/Relocation/Bounds.antt =====
-- The loaders touch the image inside the words of their records and nowhere else.
use psprism.Base.{ℕ, ◌+◌, ◌%◌, ◌^◌, ◌≤◌, ◌<◌, ◌≡◌, ◌≢◌, refl, sym, subst, ◌∙◌, arith, ◌⊎◌, inl, inr}
use psprism.Base.{List, [], ◌∷◌, Option, none, some, Option-cases, Bool-cases, All, length}
use psprism.Base.{get_elem?, ◌==◌}
use psprism.Relocation.Records.{PspRelocationRecord, PspLoadSegment, RelocationResult, Span, array}
use psprism.Relocation.Records.{
  Step, ok, stop, wild, Step-cases, success, invalid_patch, null, find_segment,
}
use psprism.Relocation.Records.{relocation_word_offset, word_offset_in, read_u32, write_u32}
use psprism.Relocation.Apply.{Outcome, returned, patch_word, low_word_at, find_low}
use psprism.Relocation.Apply.{relocate_one, apply_loop, apply_psp_relocations}
use psprism.Relocation.Memory.{read_u32_total, write_u32_total, write_u32_frame}

-- A place that passes the test lies in the image.
relocation_word_offset_bound :
    (r : PspRelocationRecord) (segments : List PspLoadSegment) (size : ℕ) {o : ℕ}
    → relocation_word_offset r segments size ≡ some o
    → o + 4 ≤ size
unfolding relocation_word_offset word_offset_in
relocation_word_offset_bound r segments size h = ground arith

abbrev IsOutsideWord : ℕ → Option ℕ → Type 0
IsOutsideWord j none = Unit
IsOutsideWord j (some o) = (j < o) ⊎ (o + 4 ≤ j)

-- Byte `j` is outside the word of the record, where it has one.
unfoldable pub IsOutside : List PspLoadSegment → ℕ → ℕ → PspRelocationRecord → Type 0
IsOutside segments size j r = IsOutsideWord j (relocation_word_offset r segments size)

module _ (segments : List PspLoadSegment) (guest_base : ℕ) where
  low_word_at-ne-wild :
      (memory : List ℕ) (r : PspRelocationRecord) → low_word_at segments memory r ≢ wild
  unfolding low_word_at
  low_word_at-ne-wild memory r =
      elim (Option-cases (relocation_word_offset r segments (length memory))) [
        | inl e ↦ rw e (λ p. cc)
        | inr (o, e) ↦
            let (w, reads) =
              read_u32_total memory o (relocation_word_offset_bound r segments (length memory) e) in
            rw (e, reads) (λ p. cc)
      ]

  find_low-ne-wild :
      (target : ℕ) (rs : List PspRelocationRecord) (memory : List ℕ)
      → find_low segments target rs memory ≢ wild
  unfolding find_low
  find_low-ne-wild target [] memory = λ p. cc
  find_low-ne-wild target (r ∷ rs) memory =
      ground (arith, low_word_at-ne-wild memory r, find_low-ne-wild target rs memory)

  patch_word-ne-wild :
      (type word to : ℕ) (low : Step ℕ) → low ≢ wild → patch_word type word to low ≢ wild
  unfolding patch_word
  patch_word-ne-wild type word to (ok w) h = ground arith
  patch_word-ne-wild type word to (stop e) h = ground arith
  patch_word-ne-wild type word to wild h = absurd (h refl)

  -- One round of the loop reads and writes inside the image, and writes one word.
  relocate_one_safe :
      (r : PspRelocationRecord) (low : Step ℕ) (memory : List ℕ)
      → low ≢ wild
      → relocate_one segments guest_base r low memory ≢ wild
  unfolding relocate_one
  relocate_one_safe r low memory h = elim (Option-cases (find_segment segments r.target_segment)) [
    | inl e ↦ rw e (λ p. cc)
    | inr (t, e) ↦ elim (Option-cases (relocation_word_offset r segments (length memory))) [
      | inl f ↦ rw (e, f) (λ p. cc)
      | inr (o, f) ↦
          let fits = relocation_word_offset_bound r segments (length memory) f in
          let (w, reads) = read_u32_total memory o fits in
          let to = (guest_base + t.address) % 2 ^ 32 in
          elim (Step-cases (patch_word r.type w to low)) [
            | inl (w', g) ↦
                let (m', writes) = write_u32_total memory o w' fits in
                rw (e, f, reads, g, writes) (λ p. cc)
            | inr (inl (x, g)) ↦ rw (e, f, reads, g) (λ p. cc)
            | inr (inr g) ↦ absurd (patch_word-ne-wild r.type w to low h g)
          ]
    ]
  ]

  relocate_one_frame :
      (r : PspRelocationRecord) (low : Step ℕ) (memory memory' : List ℕ)
      → relocate_one segments guest_base r low memory ≡ ok memory'
      → (length memory' ≡ length memory)
        × ((j : ℕ)
            → IsOutside segments (length memory) j r
            → get_elem? memory' j ≡ get_elem? memory j)
  unfolding relocate_one IsOutside
  relocate_one_frame r low memory memory' h =
      elim (Option-cases (find_segment segments r.target_segment)) [
        | inl e ↦ absurd (ground (arith, e, h))
        | inr (t, e) ↦ elim (Option-cases (relocation_word_offset r segments (length memory))) [
          | inl f ↦ absurd (ground (arith, e, f, h))
          | inr (o, f) ↦ elim (Option-cases (read_u32 memory o)) [
            | inl g ↦ absurd (ground (arith, e, f, g, h))
            | inr (w, g) ↦
                let to = (guest_base + t.address) % 2 ^ 32 in
                elim (Step-cases (patch_word r.type w to low)) [
                  | inl (w', k) ↦
                      let writes : write_u32 memory o w' ≡ some memory' =
                        ground (arith, e, f, g, k, h) in
                      let (size, frame) = write_u32_frame memory o w' memory' writes in
                      (size, λ j out. frame j (subst (IsOutsideWord j) f out))
                  | inr (inl (x, k)) ↦ absurd (ground (arith, e, f, g, k, h))
                  | inr (inr k) ↦ absurd (ground (arith, e, f, g, k, h))
                ]
          ]
        ]
      ]

  -- The call returns; the image keeps its size and every byte outside the words of the records.
  pub record IsContained (rs : List PspRelocationRecord) (memory : List ℕ) (outcome : Outcome)
      : Type 0 where
    pub result : RelocationResult
    pub image : List ℕ
    pub returns : outcome ≡ returned result image
    pub same_size : length image ≡ length memory
    pub same_bytes :
        (j : ℕ)
        → All (IsOutside segments (length memory) j) rs
        → get_elem? image j ≡ get_elem? memory j

  apply_loop-IsContained :
      (rs : List PspRelocationRecord) (memory : List ℕ)
      → IsContained rs memory (apply_loop segments guest_base rs memory)
  unfolding apply_loop
  apply_loop-IsContained [] memory = record {
    result = success;
    image = memory;
    returns = refl;
    same_size = refl;
    same_bytes = λ j out. refl;
  }
  apply_loop-IsContained (r ∷ rs) memory =
      let low = find_low segments r.target_segment rs memory in
      elim (Step-cases (relocate_one segments guest_base r low memory)) [
        | inl (memory', e) ↦
            let (size, frame) = relocate_one_frame r low memory memory' e in
            let rest = apply_loop-IsContained rs memory' in
            record {
              result = rest.result;
              image = rest.image;
              returns = ground (arith, e, rest.returns);
              same_size = rest.same_size ∙ size;
              same_bytes = λ j out. rest.same_bytes j (rw size (out.1)) ∙ frame j (out.0);
            }
        | inr (inl (x, e)) ↦ record {
          result = x;
          image = memory;
          returns = ground (arith, e);
          same_size = refl;
          same_bytes = λ j out. refl;
        }
        | inr (inr e) ↦
            absurd (relocate_one_safe r low memory (find_low-ne-wild r.target_segment rs memory) e)
      ]

-- The loader never reads or writes outside the image, whatever the records say: it returns a result,
-- and an image of the same size.
pub apply_returns :
    (memory : List ℕ) (guest_base : ℕ) (segments : List PspLoadSegment)
    (relocations : Span PspRelocationRecord)
    → (result : RelocationResult) × (image : List ℕ) × (apply_psp_relocations
          (some memory)
          guest_base
          (some segments)
          relocations
        ≡ returned result image)
      × (length image ≡ length memory)
unfolding apply_psp_relocations
apply_returns memory guest_base segments (null count) = elim (Bool-cases (count == 0)) [
  | inl e ↦ (success, memory, rw e, refl)
  | inr e ↦ (invalid_patch, memory, rw e, refl)
]
apply_returns memory guest_base segments (array rs) =
    let safe = apply_loop-IsContained segments guest_base rs memory in
    (safe.result, safe.image, safe.returns, safe.same_size)

returned-injective : {x y : RelocationResult} {a b : List ℕ} → returned x a ≡ returned y b → a ≡ b
returned-injective h = cc

-- A byte that lies in no record's word is as it was, also where the loader stops with an error.
pub apply_frame :
    (memory : List ℕ) (guest_base : ℕ) (segments : List PspLoadSegment)
    (rs : List PspRelocationRecord) (result : RelocationResult) (image : List ℕ) (j : ℕ)
    → All (IsOutside segments (length memory) j) rs
    → apply_psp_relocations (some memory) guest_base (some segments) (array rs)
      ≡ returned result image
    → get_elem? image j ≡ get_elem? memory j
unfolding apply_psp_relocations
apply_frame memory guest_base segments rs result image j out h =
    let safe = apply_loop-IsContained segments guest_base rs memory in
    rw (returned-injective (sym h ∙ safe.returns)) (safe.same_bytes j out)

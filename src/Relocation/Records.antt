-- ===== src/Relocation/Records.antt =====
-- include/psprecomp/relocation.hpp: the records, the segment lookup with its bounds test, and the
-- little-endian word accesses. The guest image is the list of its bytes. std::size_t has 64 bits, so
-- that an address and an offset of 32 bits are added without a wrap.
use psprism.Base.{ℕ, ◌+◌, ◌-◌, bit_or, ◌&&◌, ◌||◌, List, [], ◌∷◌}
use psprism.Base.{
  ◌≡◌, refl, ◌⊎◌, inl, inr, Option, none, some, ltb, leb, ◌==◌, if◌then◌else◌, length, get_elem?,
  set,
}
use psprism.Base.{u8, shl, shr}

pub record PspRelocationRecord : Type 0 where
  pub offset : ℕ
  pub type : ℕ
  pub patch_segment : ℕ
  pub target_segment : ℕ
  pub reserved : ℕ

pub record PspLoadSegment : Type 0 where
  pub address : ℕ
  pub memory_size : ℕ
  pub program_index : ℕ

pub data RelocationResult : Type 0 where
  success invalid_segment invalid_patch invalid_stream missing_lo16 unsupported_type :
      RelocationResult

-- A pointer with its count: a null pointer still has one.
pub data Span {ℓ} (A : Type ℓ) : Type ℓ where
  null : ℕ → Span A
  array : List A → Span A

-- The result of a piece of the loop body: a value, a `return` of the function, or an access outside
-- the image, which C++ leaves undefined.
pub data Step {ℓ} (A : Type ℓ) : Type ℓ where
  ok : A → Step A
  stop : RelocationResult → Step A
  wild : Step A

infixl 5 ◌>>=◌
abbrev pub ◌>>=◌ {ℓ κ} : {A : Type ℓ} {B : Type κ} → Step A → (A → Step B) → Step B
ok a >>= f = f a
stop e >>= f = stop e
wild >>= f = wild

-- To split on the result of a step and keep the equation.
pub Step-cases {ℓ} :
    {A : Type ℓ} (s : Step A)
    → ((a : A) × (s ≡ ok a)) ⊎ ((e : RelocationResult) × (s ≡ stop e)) ⊎ (s ≡ wild)
Step-cases (ok a) = inl (a, refl)
Step-cases (stop e) = inr (inl (e, refl))
Step-cases wild = inr (inr refl)

abbrev pub or_stop {ℓ} : {A : Type ℓ} → Option A → RelocationResult → Step A
or_stop (some a) e = ok a
or_stop none e = stop e

abbrev pub access {ℓ} : {A : Type ℓ} → Option A → Step A
access (some a) = ok a
access none = wild

unfoldable pub find_segment : List PspLoadSegment → ℕ → Option PspLoadSegment
find_segment [] program_index = none
find_segment (s ∷ segments) program_index =
    if s.program_index == program_index then some s else find_segment segments program_index

-- The offset in the image of a word at `offset` in a segment, when both hold all of the word.
unfoldable pub word_offset_in : PspLoadSegment → ℕ → ℕ → Option ℕ
word_offset_in segment offset memory_size =
    if ltb segment.memory_size offset || ltb (segment.memory_size - offset) 4
    then none
    else (let result = segment.address + offset in
        if leb result memory_size && leb 4 (memory_size - result) then some result else none)

-- `none` is a `false` result; `some` carries what is written to `result`.
unfoldable pub relocation_word_offset : PspRelocationRecord → List PspLoadSegment → ℕ → Option ℕ
unfolding find_segment word_offset_in
relocation_word_offset relocation segments memory_size =
    elim (find_segment segments relocation.patch_segment) [
      | none ↦ none
      | some segment ↦ word_offset_in segment relocation.offset memory_size
    ]

-- The four bytes as one word.
abbrev pub word_of : ℕ → ℕ → ℕ → ℕ → ℕ
word_of b0 b1 b2 b3 = bit_or (bit_or (bit_or b0 (shl b1 8)) (shl b2 16)) (shl b3 24)

-- `none` is a read outside the image.
unfoldable pub read_u32 : List ℕ → ℕ → Option ℕ
read_u32 memory offset = elim (get_elem? memory offset) [
  | none ↦ none
  | some b0 ↦ elim (get_elem? memory (offset + 1)) [
    | none ↦ none
    | some b1 ↦ elim (get_elem? memory (offset + 2)) [
      | none ↦ none
      | some b2 ↦ elim (get_elem? memory (offset + 3)) [
        | none ↦ none
        | some b3 ↦ some (word_of b0 b1 b2 b3)
      ]
    ]
  ]
]

-- `none` is a write outside the image.
unfoldable pub write_u32 : List ℕ → ℕ → ℕ → Option (List ℕ)
write_u32 memory offset value =
    if leb (offset + 4) (length memory)
    then some (
        set
          (set (set (set memory offset (u8 value)) (offset + 1) (u8 (shr value 8))) (offset + 2)
            (u8 (shr value 16)))
          (offset + 3) (u8 (shr value 24)))
    else none

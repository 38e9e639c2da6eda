-- ===== src/Relocation/Memory.antt =====
-- The little-endian word accesses of relocation.hpp.
use psprism.Base.{ℕ, ◌+◌, ◌*◌, ◌≤◌, ◌<◌, ◌≡◌, ap, ◌∙◌, arith, ◌⊎◌}
use psprism.Base.{List, some, IsU32, u8, shr}
use psprism.Base.{length, get_elem?, set, length-set, get_elem?-set_self, get_elem?-set_ne}
use psprism.Base.{get_elem?-lt}
use psprism.Base.Bits.{bit_or_disjoint'}
use psprism.Relocation.Records.{word_of, read_u32, write_u32}

-- Four bytes as a number.
pub word_of_bytes :
    (b0 b1 b2 b3 : ℕ)
    → b0 < 256
    → b1 < 256
    → b2 < 256
    → b3 < 256
    → word_of b0 b1 b2 b3 ≡ b0 + b1 * 256 + b2 * 65536 + b3 * 16777216
word_of_bytes b0 b1 b2 b3 h0 h1 h2 h3 = ground (
  arith,
  bit_or_disjoint' 8 b0 (b1 * 256) (omega arith) (omega arith),
  bit_or_disjoint' 16 (b0 + b1 * 256) (b2 * 65536) (omega arith) (omega arith),
  bit_or_disjoint' 24 (b0 + b1 * 256 + b2 * 65536) (b3 * 16777216) (omega arith) (omega arith),
)

-- A word inside the image can be read.
pub read_u32_total :
    (memory : List ℕ) (o : ℕ) → o + 4 ≤ length memory → (w : ℕ) × (read_u32 memory o ≡ some w)
unfolding read_u32
read_u32_total memory o h =
    let (b0, e0) = get_elem?-lt memory o (omega arith) in
    let (b1, e1) = get_elem?-lt memory (o + 1) (omega arith) in
    let (b2, e2) = get_elem?-lt memory (o + 2) (omega arith) in
    let (b3, e3) = get_elem?-lt memory (o + 3) (omega arith) in
    (word_of b0 b1 b2 b3, ground (arith, e0, e1, e2, e3))

-- The four stores of a word.
unfoldable set_word : List ℕ → ℕ → ℕ → ℕ → ℕ → ℕ → List ℕ
set_word m o b0 b1 b2 b3 = set (set (set (set m o b0) (o + 1) b1) (o + 2) b2) (o + 3) b3

length-set_word : (m : List ℕ) (o b0 b1 b2 b3 : ℕ) → length (set_word m o b0 b1 b2 b3) ≡ length m
unfolding set_word
length-set_word m o b0 b1 b2 b3 = simp length-set

set_word_outside :
    (m : List ℕ) (o b0 b1 b2 b3 j : ℕ)
    → (j < o) ⊎ (o + 4 ≤ j)
    → get_elem? (set_word m o b0 b1 b2 b3) j ≡ get_elem? m j
unfolding set_word
set_word_outside m o b0 b1 b2 b3 j h =
    get_elem?-set_ne _ (o + 3) j b3 (ground arith)
    ∙ get_elem?-set_ne _ (o + 2) j b2 (ground arith)
    ∙ get_elem?-set_ne _ (o + 1) j b1 (ground arith)
    ∙ get_elem?-set_ne m o j b0 (ground arith)

module _ (m : List ℕ) (o b0 b1 b2 b3 : ℕ) (fits : o + 4 ≤ length m) where
  set_word_0 : get_elem? (set_word m o b0 b1 b2 b3) o ≡ some b0
  unfolding set_word
  set_word_0 =
      get_elem?-set_ne _ (o + 3) o b3 (omega arith)
      ∙ get_elem?-set_ne _ (o + 2) o b2 (omega arith)
      ∙ get_elem?-set_ne _ (o + 1) o b1 (omega arith)
      ∙ get_elem?-set_self m o b0 (omega arith)

  set_word_1 : get_elem? (set_word m o b0 b1 b2 b3) (o + 1) ≡ some b1
  unfolding set_word
  set_word_1 =
      get_elem?-set_ne _ (o + 3) (o + 1) b3 (omega arith)
      ∙ get_elem?-set_ne _ (o + 2) (o + 1) b2 (omega arith)
      ∙ get_elem?-set_self (set m o b0) (o + 1) b1 (omega (arith, length-set m o b0))

  set_word_2 : get_elem? (set_word m o b0 b1 b2 b3) (o + 2) ≡ some b2
  unfolding set_word
  set_word_2 =
      get_elem?-set_ne _ (o + 3) (o + 2) b3 (omega arith)
      ∙ get_elem?-set_self (set (set m o b0) (o + 1) b1) (o + 2) b2
          (omega (arith, length-set m o b0, length-set (set m o b0) (o + 1) b1))

  set_word_3 : get_elem? (set_word m o b0 b1 b2 b3) (o + 3) ≡ some b3
  unfolding set_word
  set_word_3 = get_elem?-set_self (set (set (set m o b0) (o + 1) b1) (o + 2) b2) (o + 3) b3 (
      omega (
        arith,
        length-set m o b0,
        length-set (set m o b0) (o + 1) b1,
        length-set (set (set m o b0) (o + 1) b1) (o + 2) b2,
      ))

  read-set_word : read_u32 (set_word m o b0 b1 b2 b3) o ≡ some (word_of b0 b1 b2 b3)
  unfolding read_u32
  read-set_word = ground (arith, set_word_0, set_word_1, set_word_2, set_word_3)

-- A word inside the image can be written.
pub write_u32_total :
    (memory : List ℕ) (o v : ℕ)
    → o + 4 ≤ length memory
    → (memory' : List ℕ) × (write_u32 memory o v ≡ some memory')
unfolding write_u32 set_word
write_u32_total memory o v h =
    (set_word memory o (u8 v) (u8 (shr v 8)) (u8 (shr v 16)) (u8 (shr v 24)), ground arith)

-- What `write_u32` writes, in other words.
write_u32-set_word :
    (m : List ℕ) (o v : ℕ) {m' : List ℕ}
    → write_u32 m o v ≡ some m'
    → (o + 4 ≤ length m) × (m' ≡ set_word m o (u8 v) (u8 (shr v 8)) (u8 (shr v 16)) (u8 (shr v 24)))
unfolding write_u32 set_word
write_u32-set_word m o v h = ground arith

-- A write keeps the size of the image and every byte outside the word.
pub write_u32_frame :
    (m : List ℕ) (o v : ℕ) (m' : List ℕ)
    → write_u32 m o v ≡ some m'
    → (length m' ≡ length m) × ((j : ℕ) → (j < o) ⊎ (o + 4 ≤ j) → get_elem? m' j ≡ get_elem? m j)
write_u32_frame m o v m' h =
    let (fits, e) = write_u32-set_word m o v h in
    rw e (length-set_word m o _ _ _ _, λ j out. set_word_outside m o _ _ _ _ j out)

-- A word that was written reads back, and the image keeps its size.
pub read_u32-write_u32 :
    (m : List ℕ) (o v : ℕ) (m' : List ℕ)
    → IsU32 v
    → write_u32 m o v ≡ some m'
    → (read_u32 m' o ≡ some v) × (length m' ≡ length m)
read_u32-write_u32 m o v m' hv h =
    let (fits, e) = write_u32-set_word m o v h in
    (
      rw e (
          read-set_word m o _ _ _ _ fits
          ∙ ap some (
              word_of_bytes (u8 v) (u8 (shr v 8)) (u8 (shr v 16)) (u8 (shr v 24)) (omega arith)
                (omega arith) (omega arith) (omega arith)
              ∙ omega arith)),
      (write_u32_frame m o v m' h).0,
    )

-- ===== src/Relocation/RoundTrip/Tags.antt =====
-- The variable-length tag of the compact stream: its writer and its reader.
use psprism.Base.{ℕ, zero, suc, ◌+◌, ◌*◌, ◌/◌, ◌%◌, ◌^◌, ◌≤◌, ◌<◌, ◌≡◌, ap, arith}
use psprism.Base.{bit_and, bit_or, List, ◌∷◌, ◌++◌, u64, shl}
use psprism.Base.Bits.{bit_and_mask, bit_and_field, bit_or_disjoint'}
use psprism.Relocation.Compact.{tag_of, read_tag}
use psprism.Relocation.Encode.{emit_tag}
use native.Mathlib.Nat.{pow-le-pow_right, mul-le-mul, mul-mod_left, div-add-mod}
use native.Mathlib.Numerals.{towards_suc}

-- A group of seven bits at a shift that the reader accepts lies within 64 bits.
group-lt : (g shift : ℕ) → g < 128 → shift ≤ 56 → g * 2 ^ shift < 2 ^ 64
group-lt g shift hg hs =
    let room : 2 ^ shift ≤ 2 ^ 56 = pow-le-pow_right (omega arith) hs in
    let both : g * 2 ^ shift ≤ 127 * 2 ^ 56 = mul-le-mul {n₂ = 127} (omega arith) room in
    omega (arith, both)

-- Joining a group to the bits below it adds it.
join_group :
    (acc g shift : ℕ)
    → g < 128
    → shift ≤ 56
    → acc < 2 ^ shift
    → bit_or acc (u64 (shl g shift)) ≡ acc + g * 2 ^ shift
join_group acc g shift hg hs ha = ground (
  arith,
  group-lt g shift,
  bit_or_disjoint' shift acc (g * 2 ^ shift) (mul-mod_left g (2 ^ shift)),
)

low_group : (v : ℕ) → bit_and (bit_and v 0x7f) 0x7f ≡ v % 128
low_group v = ground (arith, bit_and_mask 7 v, bit_and_mask 7 (v % 128))

last_group :
    (g acc shift : ℕ) (rest : List ℕ)
    → g < 128
    → shift ≤ 56
    → acc < 2 ^ shift
    → read_tag (g ∷ rest) acc shift ≡ tag_of (acc + g * 2 ^ shift) rest
unfolding read_tag
last_group g acc shift rest hg hs ha =
    ground (arith, join_group acc g shift, bit_and_mask 7 g, bit_and_field 7 1 g)

inner_group :
    (g acc shift : ℕ) (rest : List ℕ)
    → g < 128
    → shift ≤ 56
    → acc < 2 ^ shift
    → read_tag (bit_or g 0x80 ∷ rest) acc shift ≡ read_tag rest (acc + g * 2 ^ shift) (shift + 7)
unfolding read_tag
inner_group g acc shift rest hg hs ha = ground (
  arith,
  join_group acc g shift,
  bit_or_disjoint' 7 g 128,
  bit_and_mask 7 (g + 128),
  bit_and_field 7 1 (g + 128),
)

shift_seven : (s : ℕ) → 2 ^ (s + 7) ≡ 128 * 2 ^ s
shift_seven s = simp towards_suc (omega arith)

-- The low group and the other ones, each at its shift.
regroup : (v shift : ℕ) → v % 128 * 2 ^ shift + v / 128 * 2 ^ (shift + 7) ≡ v * 2 ^ shift
regroup v shift = omega (
  arith,
  ap (λ (t : ℕ). t * 2 ^ shift) (div-add-mod v 128),
  ap (λ (t : ℕ). v / 128 * t) (shift_seven shift),
)

-- The bits read so far stay below the next shift.
read-lt : (acc g shift : ℕ) → g < 128 → acc < 2 ^ shift → acc + g * 2 ^ shift < 2 ^ (shift + 7)
read-lt acc g shift hg ha =
    let both : g * 2 ^ shift ≤ 127 * 2 ^ shift = mul-le-mul (omega arith) (omega arith) in
    omega (arith, both, shift_seven shift)

-- A tag of at most `suc k` groups, written with enough rounds and read from bit `shift` on.
pub read_tag-emit_tag :
    (k fuel v acc shift : ℕ) (rest : List ℕ)
    → k < fuel
    → v < 128 ^ suc k
    → shift + 7 * k ≤ 56
    → acc < 2 ^ shift
    → read_tag (emit_tag fuel v ++ rest) acc shift ≡ tag_of (acc + v * 2 ^ shift) rest
unfolding emit_tag
read_tag-emit_tag k zero v acc shift rest hf hv hs ha = absurd (omega arith)
read_tag-emit_tag zero (suc fuel) v acc shift rest hf hv hs ha =
    ground (arith, bit_and_mask 7 v, last_group v acc shift rest)
read_tag-emit_tag (suc k) (suc fuel) v acc shift rest hf hv hs ha = ground (
  arith,
  bit_and_mask 7 v,
  last_group v acc shift rest,
  inner_group (v % 128) acc shift (emit_tag fuel (v / 128) ++ rest),
  regroup v shift,
  read-lt acc (v % 128) shift,
  read_tag-emit_tag k fuel (v / 128) (acc + v % 128 * 2 ^ shift) (shift + 7) rest (omega arith)
      (omega arith) (omega arith),
)

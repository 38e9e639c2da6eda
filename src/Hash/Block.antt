-- ===== src/Hash/Block.antt =====
-- src/hash.cpp, Sha256::transform: one block of 64 bytes.
use psprism.Base.{ℕ, zero, suc, ◌+◌, ◌-◌, ◌^◌, bit_and, bit_or, bit_xor, List, [], ◌∷◌, ◌++◌}
use psprism.Base.{none, some, u32, shl, shr, length, get_elem?}

-- An element of an array; 0 outside it, where no caller reads.
abbrev pub at : List ℕ → ℕ → ℕ
at xs i = elim (get_elem? xs i) [ none ↦ 0 | some x ↦ x ]

abbrev pub round_constants : List ℕ
round_constants =
    0x428a2f98 ∷ 0x71374491 ∷ 0xb5c0fbcf ∷ 0xe9b5dba5 ∷ 0x3956c25b ∷ 0x59f111f1 ∷ 0x923f82a4
    ∷ 0xab1c5ed5 ∷ 0xd807aa98 ∷ 0x12835b01 ∷ 0x243185be ∷ 0x550c7dc3 ∷ 0x72be5d74 ∷ 0x80deb1fe
    ∷ 0x9bdc06a7 ∷ 0xc19bf174 ∷ 0xe49b69c1 ∷ 0xefbe4786 ∷ 0x0fc19dc6 ∷ 0x240ca1cc ∷ 0x2de92c6f
    ∷ 0x4a7484aa ∷ 0x5cb0a9dc ∷ 0x76f988da ∷ 0x983e5152 ∷ 0xa831c66d ∷ 0xb00327c8 ∷ 0xbf597fc7
    ∷ 0xc6e00bf3 ∷ 0xd5a79147 ∷ 0x06ca6351 ∷ 0x14292967 ∷ 0x27b70a85 ∷ 0x2e1b2138 ∷ 0x4d2c6dfc
    ∷ 0x53380d13 ∷ 0x650a7354 ∷ 0x766a0abb ∷ 0x81c2c92e ∷ 0x92722c85 ∷ 0xa2bfe8a1 ∷ 0xa81a664b
    ∷ 0xc24b8b70 ∷ 0xc76c51a3 ∷ 0xd192e819 ∷ 0xd6990624 ∷ 0xf40e3585 ∷ 0x106aa070 ∷ 0x19a4c116
    ∷ 0x1e376c08 ∷ 0x2748774c ∷ 0x34b0bcb5 ∷ 0x391c0cb3 ∷ 0x4ed8aa4a ∷ 0x5b9cca4f ∷ 0x682e6ff3
    ∷ 0x748f82ee ∷ 0x78a5636f ∷ 0x84c87814 ∷ 0x8cc70208 ∷ 0x90befffa ∷ 0xa4506ceb ∷ 0xbef9a3f7
    ∷ 0xc67178f2 ∷ []

-- std::rotr of a 32-bit word, by 1 to 31.
abbrev pub rotr : ℕ → ℕ → ℕ
rotr x k = bit_or (shr x k) (u32 (shl x (32 - k)))

-- The first 16 words of the schedule, from an offset on.
unfoldable pub block_words : ℕ → ℕ → List ℕ → List ℕ
block_words zero offset block = []
block_words (suc count) offset block =
    bit_or
      (bit_or (bit_or (shl (at block offset) 24) (shl (at block (offset + 1)) 16))
        (shl (at block (offset + 2)) 8))
      (at block (offset + 3))
    ∷ block_words count (offset + 4) block

-- The next word of a schedule.
unfoldable pub next_word : List ℕ → ℕ
next_word words =
    let index = length words in
    let x = at words (index - 15) in
    let y = at words (index - 2) in
    let first = bit_xor (bit_xor (rotr x 7) (rotr x 18)) (shr x 3) in
    let second = bit_xor (bit_xor (rotr y 17) (rotr y 19)) (shr y 10) in
    u32 (u32 (u32 (at words (index - 16) + first) + at words (index - 7)) + second)

unfoldable pub extend : ℕ → List ℕ → List ℕ
unfolding next_word
extend zero words = words
extend (suc count) words = extend count (words ++ (next_word words ∷ []))

unfoldable pub schedule : List ℕ → List ℕ
unfolding block_words extend
schedule block = extend 48 (block_words 16 0 block)

-- The eight variables of the loop.
pub record Round : Type 0 where
  pub a : ℕ
  pub b : ℕ
  pub c : ℕ
  pub d : ℕ
  pub e : ℕ
  pub f : ℕ
  pub g : ℕ
  pub h : ℕ

-- The body of the loop.
unfoldable pub step : ℕ → ℕ → Round → Round
step constant word r =
    let sum_one = bit_xor (bit_xor (rotr r.e 6) (rotr r.e 11)) (rotr r.e 25) in
    let choice = bit_xor (bit_and r.e r.f) (bit_and (2 ^ 32 - 1 - r.e) r.g) in
    let temporary_one = u32 (u32 (u32 (u32 (r.h + sum_one) + choice) + constant) + word) in
    let sum_zero = bit_xor (bit_xor (rotr r.a 2) (rotr r.a 13)) (rotr r.a 22) in
    let majority = bit_xor (bit_xor (bit_and r.a r.b) (bit_and r.a r.c)) (bit_and r.b r.c) in
    let temporary_two = u32 (sum_zero + majority) in
    record {
      a = u32 (temporary_one + temporary_two);
      b = r.a;
      c = r.b;
      d = r.c;
      e = u32 (r.d + temporary_one);
      f = r.e;
      g = r.f;
      h = r.g;
    }

unfoldable pub rounds : List ℕ → List ℕ → Round → Round
unfolding step
rounds (constant ∷ constants) (word ∷ words) r = rounds constants words (step constant word r)
rounds _ _ r = r

abbrev pub add_round : Round → Round → Round
add_round s r = record {
  a = u32 (s.a + r.a);
  b = u32 (s.b + r.b);
  c = u32 (s.c + r.c);
  d = u32 (s.d + r.d);
  e = u32 (s.e + r.e);
  f = u32 (s.f + r.f);
  g = u32 (s.g + r.g);
  h = u32 (s.h + r.h);
}

-- What `transform` makes of the state and the block.
unfoldable pub compress : Round → List ℕ → Round
unfolding schedule rounds
compress state block = add_round state (rounds round_constants (schedule block) state)

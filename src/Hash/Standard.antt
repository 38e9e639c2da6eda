-- ===== src/Hash/Standard.antt =====
-- SHA-256 as FIPS 180-4 describes it, apart from src/hash.cpp: its constants are computed from the
-- roots of the primes, and its schedule is a window of sixteen words.
use psprism.Base.{
  ℕ, zero, suc, ◌+◌, ◌-◌, ◌*◌, ◌/◌, ◌%◌, ◌^◌, ltb, leb, if◌then◌else◌, bit_and, bit_or, bit_xor,
  List, [], ◌∷◌, ◌++◌, length, replicate, take, drop, map,
}
use psprism.Hash.Block.{Round, at}

-- The next bit of a root whose bits so far are a number.
abbrev pub next_bit : ℕ → ℕ → ℕ → ℕ
next_bit power n r = if leb ((2 * r + 1) ^ power) n then 2 * r + 1 else 2 * r

-- The root of a number, rounded down, for a root of so many bits.
abbrev pub root : ℕ → ℕ → ℕ → ℕ
root power zero n = 0
root power (suc bits) n = next_bit power n (root power bits (n / 2 ^ power))

-- The first 32 bits of the fraction of a root, which is below 8.
abbrev pub fraction : ℕ → ℕ → ℕ
fraction power n = root power 35 (n * 2 ^ (32 * power)) % 2 ^ 32

abbrev pub primes : List ℕ
primes =
    2 ∷ 3 ∷ 5 ∷ 7 ∷ 11 ∷ 13 ∷ 17 ∷ 19 ∷ 23 ∷ 29 ∷ 31 ∷ 37 ∷ 41 ∷ 43 ∷ 47 ∷ 53 ∷ 59 ∷ 61 ∷ 67 ∷ 71
    ∷ 73 ∷ 79 ∷ 83 ∷ 89 ∷ 97 ∷ 101 ∷ 103 ∷ 107 ∷ 109 ∷ 113 ∷ 127 ∷ 131 ∷ 137 ∷ 139 ∷ 149 ∷ 151 ∷ 157
    ∷ 163 ∷ 167 ∷ 173 ∷ 179 ∷ 181 ∷ 191 ∷ 193 ∷ 197 ∷ 199 ∷ 211 ∷ 223 ∷ 227 ∷ 229 ∷ 233 ∷ 239 ∷ 241
    ∷ 251 ∷ 257 ∷ 263 ∷ 269 ∷ 271 ∷ 277 ∷ 281 ∷ 283 ∷ 293 ∷ 307 ∷ 311 ∷ []

-- The constants of the rounds, from the cube roots of the first 64 primes.
abbrev pub cube_fractions : List ℕ
cube_fractions = map (fraction 3) primes

-- The first state, from the square roots of the first eight primes.
abbrev pub initial : Round
initial = record {
  a = fraction 2 2;
  b = fraction 2 3;
  c = fraction 2 5;
  d = fraction 2 7;
  e = fraction 2 11;
  f = fraction 2 13;
  g = fraction 2 17;
  h = fraction 2 19;
}

-- ROTR, the two kinds of sigma, Ch and Maj, of 32-bit words.
abbrev pub rotated : ℕ → ℕ → ℕ
rotated n x = bit_or (x / 2 ^ n) (x * 2 ^ (32 - n) % 2 ^ 32)

abbrev pub xor3 : ℕ → ℕ → ℕ → ℕ
xor3 x y z = bit_xor (bit_xor x y) z

abbrev pub big_sigma0 : ℕ → ℕ
big_sigma0 x = xor3 (rotated 2 x) (rotated 13 x) (rotated 22 x)

abbrev pub big_sigma1 : ℕ → ℕ
big_sigma1 x = xor3 (rotated 6 x) (rotated 11 x) (rotated 25 x)

abbrev pub small_sigma0 : ℕ → ℕ
small_sigma0 x = xor3 (rotated 7 x) (rotated 18 x) (x / 2 ^ 3)

abbrev pub small_sigma1 : ℕ → ℕ
small_sigma1 x = xor3 (rotated 17 x) (rotated 19 x) (x / 2 ^ 10)

abbrev pub ch : ℕ → ℕ → ℕ → ℕ
ch x y z = bit_xor (bit_and x y) (bit_and (2 ^ 32 - 1 - x) z)

abbrev pub maj : ℕ → ℕ → ℕ → ℕ
maj x y z = xor3 (bit_and x y) (bit_and x z) (bit_and y z)

-- The words of a text: four bytes each, the high byte first.
unfoldable pub words_of : List ℕ → List ℕ
words_of (p ∷ q ∷ r ∷ s ∷ bytes) =
    bit_or (bit_or (bit_or (p * 2 ^ 24) (q * 2 ^ 16)) (r * 2 ^ 8)) s ∷ words_of bytes
words_of _ = []

-- The word that follows sixteen words, W(t-16) to W(t-1).
abbrev pub following : List ℕ → ℕ
following window =
    (small_sigma1 (at window 14) + at window 9 + small_sigma0 (at window 1) + at window 0) % 2 ^ 32

-- The words of a window, and of so many windows after it, each one word further on.
unfoldable pub expanded : ℕ → List ℕ → List ℕ
expanded zero window = window
expanded (suc count) [] = []
expanded (suc count) (word ∷ rest) = word ∷ expanded count (rest ++ following (word ∷ rest) ∷ [])

-- A round: T1 and T2.
abbrev pub round : ℕ → ℕ → Round → Round
round k w r =
    let t1 = r.h + big_sigma1 r.e + ch r.e r.f r.g + k + w in
    let t2 = big_sigma0 r.a + maj r.a r.b r.c in
    record {
      a = (t1 + t2) % 2 ^ 32;
      b = r.a;
      c = r.b;
      d = r.c;
      e = (r.d + t1) % 2 ^ 32;
      f = r.e;
      g = r.f;
      h = r.g;
    }

unfoldable pub all_rounds : List ℕ → List ℕ → Round → Round
all_rounds (k ∷ ks) (w ∷ ws) r = all_rounds ks ws (round k w r)
all_rounds _ _ r = r

-- The intermediate hash value after a block.
unfoldable pub after_block : Round → List ℕ → Round
unfolding words_of expanded all_rounds
after_block s block =
    let r = all_rounds cube_fractions (expanded 48 (words_of block)) s in
    record {
      a = (s.a + r.a) % 2 ^ 32;
      b = (s.b + r.b) % 2 ^ 32;
      c = (s.c + r.c) % 2 ^ 32;
      d = (s.d + r.d) % 2 ^ 32;
      e = (s.e + r.e) % 2 ^ 32;
      f = (s.f + r.f) % 2 ^ 32;
      g = (s.g + r.g) % 2 ^ 32;
      h = (s.h + r.h) % 2 ^ 32;
    }

-- The state after some blocks of 64 bytes.
unfoldable pub chain : ℕ → Round → List ℕ → Round
unfolding after_block
chain zero s text = s
chain (suc blocks) s text = chain blocks (after_block s (take 64 text)) (drop 64 text)

-- A number in so many digits of a base, each in a notation.
abbrev pub in_digits : ℕ → (ℕ → ℕ) → ℕ → ℕ → List ℕ
in_digits base notation zero n = []
in_digits base notation (suc count) n =
    notation (n / base ^ count % base) ∷ in_digits base notation count n

-- What follows a text of so many bytes: the byte 0x80, the zeros that leave eight bytes of a block,
-- and the number of bits in these.
abbrev pub padding : ℕ → List ℕ
padding size = 0x80 ∷ replicate ((119 - size % 64) % 64) 0 ++ in_digits 256 (λ d. d) 8 (size * 8)

-- The number of blocks of a padded text.
abbrev pub block_count : ℕ → ℕ
block_count size = (size + 72) / 64

-- A hexadecimal digit in ASCII.
abbrev pub hexadecimal : ℕ → ℕ
hexadecimal d = if ltb d 10 then 48 + d else 97 + (d - 10)

abbrev pub word_text : ℕ → List ℕ
word_text w = in_digits 16 hexadecimal 8 w

-- The hash of a text, in hexadecimal.
unfoldable pub sha256 : List ℕ → List ℕ
unfolding chain
sha256 text =
    let s = chain (block_count (length text)) initial (text ++ padding (length text)) in
    word_text s.a
    ++ word_text s.b
    ++ word_text s.c
    ++ word_text s.d
    ++ word_text s.e
    ++ word_text s.f
    ++ word_text s.g
    ++ word_text s.h

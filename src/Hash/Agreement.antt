-- ===== src/Hash/Agreement.antt =====
-- One block of `transform` and of the standard, and the texts of a hash.
use psprism.Base.{
  ℕ, zero, suc, ◌+◌, ◌-◌, ◌*◌, ◌/◌, ◌%◌, ◌^◌, ◌≡◌, refl, sym, ap, ◌∙◌, arith, take, drop,
  length-take, length-drop, List, [], ◌∷◌, ◌++◌, length, length-append, u8, u64, shr,
}
use mathlib.Core.List.{append_assoc}
use psprism.Analysis.Text.{hex_digit}
use psprism.Hash.Block.{
  Round, at, round_constants, block_words, next_word, extend, schedule, step, rounds, add_round,
  compress,
}
use psprism.Hash.Sha256.{fresh, digest_of, word_bytes, hex_digest}
use psprism.Hash.Padding.{count_bytes, compressed}
use psprism.Hash.Standard.{
  cube_fractions, initial, round, all_rounds, following, expanded, words_of, after_block, in_digits,
  hexadecimal, word_text, chain,
}

pub same_initial : fresh.state ≡ initial
same_initial = refl

same_constants : round_constants ≡ cube_fractions
same_constants = refl

step-round : (k w : ℕ) (r : Round) → step k w r ≡ round k w r
unfolding step
step-round k w r =
    let next : ℕ → ℕ → Round = λ new_a new_e. record {
      a = new_a;
      b = r.a;
      c = r.b;
      d = r.c;
      e = new_e;
      f = r.e;
      g = r.f;
      h = r.g;
    } in
    ap (λ n. next n (step k w r).e) (omega arith) ∙ ap (λ n. next (round k w r).a n) (omega arith)

rounds-all_rounds : (ks ws : List ℕ) (r : Round) → rounds ks ws r ≡ all_rounds ks ws r
unfolding rounds all_rounds
rounds-all_rounds [] ws r = refl
rounds-all_rounds (k ∷ ks) [] r = refl
rounds-all_rounds (k ∷ ks) (w ∷ ws) r =
    ap (rounds ks ws) (step-round k w r) ∙ rounds-all_rounds ks ws (round k w r)

at-append :
    (before window : List ℕ) (i : ℕ) → at (before ++ window) (length before + i) ≡ at window i
at-append [] window i = ap (at window) {x = 0 + i} (omega arith)
at-append (x ∷ before) window i =
    ap (at (x ∷ before ++ window)) {x = suc (length before) + i} {y = suc (length before + i)}
      (omega arith)
    ∙ at-append before window i

at_back :
    (before window : List ℕ) (k i : ℕ)
    → length window ≡ k + i
    → at (before ++ window) (length (before ++ window) - k) ≡ at window i
at_back before window k i size =
    ap (at (before ++ window)) (omega (arith, size, length-append before window))
    ∙ at-append before window i

next_word-following :
    (before window : List ℕ) → length window ≡ 16 → next_word (before ++ window) ≡ following window
unfolding next_word
next_word-following before window size =
    rw
      (
        at_back before window 15 1 size,
        at_back before window 2 14 size,
        at_back before window 16 0 size,
        at_back before window 7 9 size,
      )
      (omega arith)

extend-expanded :
    (count : ℕ) (before window : List ℕ)
    → length window ≡ 16
    → extend count (before ++ window) ≡ before ++ expanded count window
unfolding extend expanded
extend-expanded zero before window size = refl
extend-expanded (suc count) before [] size = absurd (omega (arith, size))
extend-expanded (suc count) before (word ∷ rest) size =
    let new = following (word ∷ rest) in
    ap (λ n. extend count ((before ++ word ∷ rest) ++ n ∷ []))
      (next_word-following before (word ∷ rest) size)
    ∙ ap (extend count) (
        append_assoc before (word ∷ rest) (new ∷ [])
        ∙ sym (append_assoc before (word ∷ []) (rest ++ new ∷ [])))
    ∙ extend-expanded count (before ++ word ∷ []) (rest ++ new ∷ [])
        (omega (arith, size, length-append rest (new ∷ [])))
    ∙ append_assoc before (word ∷ []) (expanded count (rest ++ new ∷ []))

length-block_words :
    (count offset : ℕ) (block : List ℕ) → length (block_words count offset block) ≡ count
unfolding block_words
length-block_words zero offset block = refl
length-block_words (suc count) offset block = ap suc (length-block_words count (offset + 4) block)

at_offset :
    (before block : List ℕ) (offset i n : ℕ)
    → offset ≡ length before
    → n ≡ offset + i
    → at (before ++ block) n ≡ at block i
at_offset before block offset i n size place =
    ap (at (before ++ block)) (omega (arith, size, place)) ∙ at-append before block i

block_words-words_of :
    (count offset : ℕ) (before block : List ℕ)
    → offset ≡ length before
    → length block ≡ count * 4
    → block_words count offset (before ++ block) ≡ words_of block
unfolding block_words words_of
block_words-words_of zero offset before [] start size = refl
block_words-words_of zero offset before (p ∷ block) start size = absurd (omega (arith, size))
block_words-words_of (suc count) offset before [] start size = absurd (omega (arith, size))
block_words-words_of (suc count) offset before (p ∷ []) start size = absurd (omega (arith, size))
block_words-words_of (suc count) offset before (p ∷ q ∷ []) start size =
    absurd (omega (arith, size))
block_words-words_of (suc count) offset before (p ∷ q ∷ r ∷ []) start size =
    absurd (omega (arith, size))
block_words-words_of (suc count) offset before (p ∷ q ∷ r ∷ s ∷ rest) start size =
    let front = p ∷ q ∷ r ∷ s ∷ [] in
    rw
      (
        at_offset before (front ++ rest) offset 0 offset start (omega arith),
        at_offset before (front ++ rest) offset 1 (offset + 1) start refl,
        at_offset before (front ++ rest) offset 2 (offset + 2) start refl,
        at_offset before (front ++ rest) offset 3 (offset + 3) start refl,
      )
      (ap (λ ws. words_of front ++ ws)
        (ap (block_words count (offset + 4)) (sym (append_assoc before front rest))
          ∙ block_words-words_of count (offset + 4) (before ++ front) rest
              (omega (arith, start, length-append before front)) (omega (arith, size))))

schedule-expanded :
    (block : List ℕ) → length block ≡ 64 → schedule block ≡ expanded 48 (words_of block)
unfolding schedule
schedule-expanded block size =
    extend-expanded 48 [] (block_words 16 0 block) (length-block_words 16 0 block)
    ∙ ap (expanded 48) (block_words-words_of 16 0 [] block refl size)

-- `transform` computes the intermediate hash values.
pub compress-after_block :
    (state : Round) (block : List ℕ)
    → length block ≡ 64
    → compress state block ≡ after_block state block
unfolding compress after_block
compress-after_block state block size = ap (add_round state) (
    ap (λ ws. rounds round_constants ws state) (schedule-expanded block size)
    ∙ ap (λ ks. rounds ks (expanded 48 (words_of block)) state) same_constants
    ∙ rounds-all_rounds cube_fractions (expanded 48 (words_of block)) state)

pub compressed-chain :
    (blocks : ℕ) (state : Round) (text : List ℕ)
    → length text ≡ blocks * 64
    → compressed blocks state text ≡ chain blocks state text
unfolding chain
compressed-chain zero state text size = refl
compressed-chain (suc blocks) state text size =
    ap (λ s. compressed blocks s (drop 64 text))
      (compress-after_block state (take 64 text) (length-take 64 text (omega (arith, size))))
    ∙ compressed-chain blocks (after_block state (take 64 text)) (drop 64 text)
        (omega (arith, size, length-drop 64 text))

-- The bit count and the digest, byte by byte.
pub count_bytes-in_digits : (n : ℕ) → count_bytes (u64 n) ≡ in_digits 256 (λ d. d) 8 n
count_bytes-in_digits n = ground arith

hex_digit-hexadecimal : (d : ℕ) → hex_digit d ≡ hexadecimal d
unfolding hex_digit
hex_digit-hexadecimal d = ground arith

hex_digest-append : (xs ys : List ℕ) → hex_digest (xs ++ ys) ≡ hex_digest xs ++ hex_digest ys
unfolding hex_digest
hex_digest-append [] ys = refl
hex_digest-append (x ∷ xs) ys =
    ap (λ t. hex_digit (shr x 4) ∷ hex_digit (x % 16) ∷ t) (hex_digest-append xs ys)

-- The two digits of a byte.
two_digits :
    (x high low : ℕ) {rest rest' : List ℕ}
    → x / 16 % 16 ≡ high
    → x % 16 ≡ low
    → rest ≡ rest'
    → hex_digit (shr (u8 x) 4) ∷ hex_digit (u8 x % 16) ∷ rest
      ≡ hexadecimal high ∷ hexadecimal low ∷ rest'
two_digits x high low {rest = rest} p q more =
    ap (λ d. d ∷ hex_digit (u8 x % 16) ∷ rest)
      (hex_digit-hexadecimal (shr (u8 x) 4) ∙ ap hexadecimal (omega (arith, p)))
    ∙ ap (λ d. hexadecimal high ∷ d ∷ rest)
        (hex_digit-hexadecimal (u8 x % 16) ∙ ap hexadecimal (omega (arith, q)))
    ∙ ap (λ t. hexadecimal high ∷ hexadecimal low ∷ t) more

word_bytes-word_text : (w : ℕ) → hex_digest (word_bytes w) ≡ word_text w
unfolding hex_digest
word_bytes-word_text w =
    two_digits (shr w 24) (w / 2 ^ 28 % 16) (w / 2 ^ 24 % 16) (omega arith) refl (
      two_digits (shr w 16) (w / 2 ^ 20 % 16) (w / 2 ^ 16 % 16) (omega arith) refl (
        two_digits (shr w 8) (w / 2 ^ 12 % 16) (w / 2 ^ 8 % 16) (omega arith) refl
          (two_digits w (w / 2 ^ 4 % 16) (w / 2 ^ 0 % 16) (omega arith) (omega arith) refl)))

pub digest_of-word_text :
    (r : Round)
    → hex_digest (digest_of r)
      ≡ word_text r.a
        ++ word_text r.b
        ++ word_text r.c
        ++ word_text r.d
        ++ word_text r.e
        ++ word_text r.f
        ++ word_text r.g
        ++ word_text r.h
unfolding digest_of
digest_of-word_text r = simp (hex_digest-append, word_bytes-word_text)

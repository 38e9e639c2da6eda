-- ===== src/Hash/Chain.antt =====
-- The hash of a text is the standard's.
use psprism.Base.{ap, ℕ, suc, ◌+◌, ◌-◌, ◌*◌, ◌%◌, ◌<◌, ◌≡◌, refl, sym, ◌∙◌, arith}
use psprism.Base.{
  ◌==◌, inl, inr, List, [], ◌∷◌, ◌++◌, length, length-append, length-replicate, replicate,
  Bool-cases, u64,
}
use psprism.Hash.Sha256.{
  Sha256, fresh, write, put_byte, put_bytes, update, finish_state, finish, sha256_hex,
}
use psprism.Hash.Writes.{put_byte-open, put_byte-full, write-block_size}
use psprism.Hash.Streaming.{put_bytes-append, put_bytes-total_bytes}
use psprism.Hash.Block.{Round}
use psprism.Hash.Standard.{initial, chain, padding, block_count, in_digits, word_text, sha256}
use psprism.Hash.Agreement.{
  same_initial, compressed-chain, count_bytes-in_digits, digest_of-word_text,
}
use psprism.Hash.Padding.{
  IsOpen, count_bytes, flush-IsOpen, put_bytes-blocks, write-block, finish_state-tail,
}

put_byte-block :
    (s : Sha256) (x : ℕ)
    → IsOpen s
    → IsOpen (put_byte s x) × ((put_byte s x).block_size ≡ suc s.block_size % 64)
put_byte-block s x (room, whole) =
    let block = write-block s x ∙ whole in
    let size = write-block_size s x in
    elim (Bool-cases (suc s.block_size == 64)) [
      | inl e ↦
          let full : suc s.block_size ≡ 64 = ground (arith, e) in
          let (is_open, empty) = flush-IsOpen (write s x) block in
          rw (put_byte-full s x full) (is_open, omega (arith, empty, full))
      | inr e ↦
          let small : suc s.block_size < 64 = ground (arith, e, room) in
          rw (put_byte-open s x small)
            ((omega (arith, size, small), block), omega (arith, size, small))
    ]

put_bytes-block :
    (s : Sha256) (xs : List ℕ)
    → IsOpen s
    → IsOpen (put_bytes s xs) × ((put_bytes s xs).block_size ≡ (s.block_size + length xs) % 64)
unfolding put_bytes
put_bytes-block s [] (room, whole) = ((room, whole), omega (arith, room))
put_bytes-block s (x ∷ xs) h =
    let (is_open, size) = put_byte-block s x h in
    let (after, total) = put_bytes-block (put_byte s x) xs is_open in
    (after, omega (arith, size, total))

length-padding : (size : ℕ) → size + length (padding size) ≡ block_count size * 64
length-padding size =
    let zeros = (119 - size % 64) % 64 in
    omega (
      arith,
      length-append (replicate {A = ℕ} zeros 0) (in_digits 256 (λ d. d) 8 (size * 8)),
      length-replicate {A = ℕ} zeros 0,
    )

-- The state at the end of the hash of a text is the standard's, for the padded text.
finish_state-chain :
    (text : List ℕ)
    → finish_state (update fresh text)
      ≡ chain (block_count (length text)) initial (text ++ padding (length text))
unfolding update
finish_state-chain text =
    let start = record fresh { total_bytes = u64 (0 + length text) } in
    let s = put_bytes start text in
    let padded = text ++ padding (length text) in
    let whole : length start.block ≡ 64 = refl in
    let ((room, block), size) = put_bytes-block start text (omega arith, whole) in
    let zeros : (119 - s.block_size) % 64 ≡ (119 - length text % 64) % 64 = omega (arith, size) in
    let bits : count_bytes (u64 (s.total_bytes * 8)) ≡ in_digits 256 (λ d. d) 8 (length text * 8) =
      ap count_bytes {y = u64 (length text * 8)} (omega (arith, put_bytes-total_bytes start text))
      ∙ count_bytes-in_digits (length text * 8) in
    let blocks : length padded ≡ block_count (length text) * 64 =
      length-append text (padding (length text)) ∙ length-padding (length text) in
    finish_state-tail s room block
    ∙ ap (λ n. (put_bytes s (0x80 ∷ replicate n 0 ++ count_bytes (u64 (s.total_bytes * 8)))).state)
        zeros
    ∙ ap (λ d. (put_bytes s (0x80 ∷ replicate ((119 - length text % 64) % 64) 0 ++ d)).state) bits
    ∙ ap (λ (t : Sha256). t.state) (sym (put_bytes-append start text (padding (length text))))
    ∙ put_bytes-blocks (block_count (length text)) start padded refl whole blocks
    ∙ compressed-chain (block_count (length text)) start.state padded blocks
    ∙ ap (λ r. chain (block_count (length text)) r padded) same_initial

-- The hash of every text is the one that FIPS 180-4 describes, written again in Hash/Standard: the
-- padded text, its blocks, the schedule and the rounds of each from the constants that the roots of
-- the primes give, and the hexadecimal text of the last state.
pub sha256_hex-sha256 : (text : List ℕ) → sha256_hex text ≡ sha256 text
unfolding sha256_hex finish sha256
sha256_hex-sha256 text =
    digest_of-word_text (finish_state (update fresh text))
    ∙ ap
        (λ (s : Round).
          word_text s.a
          ++ word_text s.b
          ++ word_text s.c
          ++ word_text s.d
          ++ word_text s.e
          ++ word_text s.f
          ++ word_text s.g
          ++ word_text s.h)
        (finish_state-chain text)

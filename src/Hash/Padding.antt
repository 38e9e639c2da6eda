-- ===== src/Hash/Padding.antt =====
-- The blocks of a text that `update` compresses, and `finish` as an update with the padding.
use psprism.Base.{
  ap, ℕ, zero, suc, ◌+◌, ◌-◌, ◌*◌, ◌%◌, ◌≤◌, ◌<◌, ◌≡◌, refl, sym, ◌∙◌, subst, arith, true, false,
}
use psprism.Base.{
  ltb, inl, inr, List, [], ◌∷◌, ◌++◌, length, length-append, length-set, length-replicate,
  length-take, length-drop, take-drop, replicate, take, drop, Bool-cases, u8, u64, shr,
}
use psprism.Hash.Block.{Round, compress}
use psprism.Hash.Sha256.{
  Sha256, write, flush, put_byte, put_bytes, fill, put_count, make_room, finish_state,
}
use psprism.Hash.Writes.{
  overwrite, overwrite-whole, length-overwrite, tail_order, writes, fill-writes, put_bytes-full,
  overwrite-append, put_byte-open, write-block_size, writes-cons,
}
use psprism.Hash.Streaming.{put_bytes-append}

-- A number of 64 bits, its high byte first.
abbrev pub count_bytes : ℕ → List ℕ
count_bytes n =
    u8 (shr n 56)
    ∷ u8 (shr n 48)
    ∷ u8 (shr n 40)
    ∷ u8 (shr n 32)
    ∷ u8 (shr n 24)
    ∷ u8 (shr n 16)
    ∷ u8 (shr n 8)
    ∷ u8 n
    ∷ []

-- What `transform` makes of a state by some blocks of 64 bytes.
abbrev pub compressed : ℕ → Round → List ℕ → Round
compressed zero state text = state
compressed (suc blocks) state text =
    compressed blocks (compress state (take 64 text)) (drop 64 text)

-- A block with room.
abbrev pub IsOpen : Sha256 → Type 0
IsOpen s = (s.block_size < 64) × (length s.block ≡ 64)

pub flush-IsOpen :
    (s : Sha256) → length s.block ≡ 64 → IsOpen (flush s) × ((flush s).block_size ≡ 0)
unfolding flush
flush-IsOpen s h = ((omega arith, h), refl)

flush-state : (s : Sha256) → (flush s).state ≡ compress s.state s.block
unfolding flush
flush-state s = refl

pub put_bytes-blocks :
    (blocks : ℕ) (s : Sha256) (text : List ℕ)
    → s.block_size ≡ 0
    → length s.block ≡ 64
    → length text ≡ blocks * 64
    → (put_bytes s text).state ≡ compressed blocks s.state text
unfolding put_bytes
put_bytes-blocks zero s [] e b h = refl
put_bytes-blocks zero s (x ∷ text) e b h = absurd (omega arith)
put_bytes-blocks (suc blocks) s text e b h =
    let front = take 64 text in
    let size = length-take 64 text (omega arith) in
    let s' = flush (writes s front) in
    let filled : put_bytes s text ≡ put_bytes s' (drop 64 text) =
      ap (put_bytes s) (sym (take-drop 64 text))
      ∙ put_bytes-append s front (drop 64 text)
      ∙ ap (λ t. put_bytes t (drop 64 text)) (put_bytes-full s front (omega arith) (omega arith)) in
    let whole : (writes s front).block ≡ front =
      ap (λ n. overwrite s.block n front) e ∙ overwrite-whole s.block front (omega arith) in
    ap (λ (t : Sha256). t.state) filled
    ∙ put_bytes-blocks blocks s' (drop 64 text)
        (flush-IsOpen (writes s front) (ap length whole ∙ size)).1
        (flush-IsOpen (writes s front) (ap length whole ∙ size)).0.1
        (omega (arith, length-drop 64 text))
    ∙ ap (λ st. compressed blocks st (drop 64 text))
        (flush-state (writes s front) ∙ ap (compress s.state) whole)

-- The count at the end of a block.
put_count-writes :
    (block : List ℕ) (n : ℕ)
    → length block ≡ 64
    → put_count 8 0 n block ≡ overwrite block 56 (count_bytes n)
unfolding put_count
put_count-writes block n h =
    subst
      (λ low.
        put_count 8 0 n block
        ≡ overwrite block 56 (
            u8 (shr n 56)
            ∷ u8 (shr n 48)
            ∷ u8 (shr n 40)
            ∷ u8 (shr n 32)
            ∷ u8 (shr n 24)
            ∷ u8 (shr n 16)
            ∷ u8 (shr n 8)
            ∷ low
            ∷ []))
      {x = u8 (shr n 0)} {y = u8 n} (omega arith)
      (tail_order 56 block (u8 (shr n 56)) (u8 (shr n 48)) (u8 (shr n 40)) (u8 (shr n 32))
        (u8 (shr n 24)) (u8 (shr n 16)) (u8 (shr n 8)) (u8 (shr n 0)) h)

-- The end of `finish`, for a block that has room for the count.
module _ (s : Sha256) (n : ℕ) (room : s.block_size ≤ 56) (whole : length s.block ≡ 64) where
  abbrev zeros : List ℕ
  zeros = replicate (56 - s.block_size) 0

  closing :
      compress
        (fill (56 - s.block_size) s).state
        (put_count 8 0 n (fill (56 - s.block_size) s).block)
      ≡ (put_bytes s (zeros ++ count_bytes n)).state
  closing =
      let count = length-replicate {A = ℕ} (56 - s.block_size) 0 in
      let front = overwrite s.block s.block_size zeros in
      let block : overwrite s.block s.block_size (zeros ++ count_bytes n)
          ≡ overwrite front 56 (count_bytes n) =
        overwrite-append s.block s.block_size zeros (count_bytes n)
        ∙ ap (λ i. overwrite front i (count_bytes n)) (omega (arith, count)) in
      ap (λ (t : Sha256). compress t.state (put_count 8 0 n t.block))
        (fill-writes (56 - s.block_size) s)
      ∙ ap (compress s.state) (
          put_count-writes front n (length-overwrite s.block s.block_size zeros ∙ whole)
          ∙ sym block)
      ∙ sym (flush-state (writes s (zeros ++ count_bytes n)))
      ∙ ap (λ (t : Sha256). t.state)
          (sym (
            put_bytes-full s (zeros ++ count_bytes n) (omega arith)
              (omega (arith, count, length-append zeros (count_bytes n)))))

make_room-small : (s : Sha256) → s.block_size ≤ 56 → make_room s ≡ s
unfolding make_room
make_room-small s h = let e : ltb 56 s.block_size ≡ false = ground (arith, h) in rw e refl

make_room-full : (s : Sha256) → 56 < s.block_size → make_room s ≡ flush (fill (64 - s.block_size) s)
unfolding make_room
make_room-full s h = let e : ltb 56 s.block_size ≡ true = ground (arith, h) in rw e refl

replicate_add : (m n : ℕ) → replicate {A = ℕ} (m + n) 0 ≡ replicate m 0 ++ replicate n 0
replicate_add zero n = ap (λ k. replicate {A = ℕ} k 0) (omega arith)
replicate_add (suc m) n =
    ap (λ k. replicate {A = ℕ} k 0) {x = suc m + n} {y = suc (m + n)} (omega arith)
    ∙ ap (λ zs. 0 ∷ zs) (replicate_add m n)

pub write-block : (s : Sha256) (x : ℕ) → length (write s x).block ≡ length s.block
unfolding write
write-block s x = length-set s.block s.block_size x

-- `finish` hashes the padding.
module _ (s : Sha256) (room : s.block_size < 64) (whole : length s.block ≡ 64) where
  abbrev marked : Sha256
  marked = write s 0x80

  abbrev bits : List ℕ
  bits = count_bytes (u64 (s.total_bytes * 8))

  abbrev tail_of : ℕ → List ℕ
  tail_of n = 0x80 ∷ replicate n 0 ++ bits

  finish_from :
      (opened : Sha256)
      → make_room marked ≡ opened
      → opened.block_size ≤ 56
      → length opened.block ≡ 64
      → finish_state s ≡ (put_bytes opened (replicate (56 - opened.block_size) 0 ++ bits)).state
  unfolding finish_state
  finish_from opened e fits size =
      ap
        (λ (t : Sha256).
          compress (fill (56 - t.block_size) t).state
            (put_count 8 0 (u64 (s.total_bytes * 8)) (fill (56 - t.block_size) t).block))
        e
      ∙ closing opened (u64 (s.total_bytes * 8)) fits size

  put_bytes-cons : (x : ℕ) (xs : List ℕ) → put_bytes s (x ∷ xs) ≡ put_bytes (put_byte s x) xs
  unfolding put_bytes
  put_bytes-cons x xs = refl

  pub finish_state-tail : finish_state s ≡ (put_bytes s (tail_of ((119 - s.block_size) % 64))).state
  finish_state-tail = elim (Bool-cases (ltb s.block_size 56)) [
    | inl e ↦
        let size = write-block_size s 0x80 in
        let small : suc s.block_size ≤ 56 = ground (arith, e) in
        finish_from marked (make_room-small marked (omega (arith, size, small)))
          (omega (arith, size, small)) (write-block s 0x80 ∙ whole)
        ∙ ap (λ n. (put_bytes marked (replicate n 0 ++ bits)).state) {y = (119 - s.block_size) % 64}
            (omega (arith, size, small))
        ∙ ap (λ (t : Sha256). t.state)
            (sym (
              put_bytes-cons 0x80 (replicate ((119 - s.block_size) % 64) 0 ++ bits)
              ∙ ap (λ t. put_bytes t (replicate ((119 - s.block_size) % 64) 0 ++ bits))
                  (put_byte-open s 0x80 (omega (arith, small)))))
    | inr e ↦
        let k = 63 - s.block_size in
        let first : List ℕ = 0x80 ∷ replicate k 0 in
        let opened = flush (writes s first) in
        let large : 55 < s.block_size = ground (arith, e) in
        let size = write-block_size s 0x80 in
        let made : make_room marked ≡ opened =
          make_room-full marked (omega (arith, size, large))
          ∙ ap flush (
              ap (λ n. fill n marked) {y = k} (omega (arith, size, large))
              ∙ fill-writes k marked
              ∙ writes-cons s 0x80 (replicate k 0)) in
        let count = length-replicate {A = ℕ} k 0 in
        let filled : put_bytes s first ≡ opened =
          put_bytes-full s first room (omega (arith, count, large, room)) in
        let (is_open, empty) =
          flush-IsOpen (writes s first) (length-overwrite s.block s.block_size first ∙ whole) in
        let m = (119 - s.block_size) % 64 in
        let split : 0x80 ∷ replicate m 0 ≡ first ++ replicate 56 0 =
          ap (λ zs. 0x80 ∷ zs)
            (ap (λ n. replicate {A = ℕ} n 0) {y = k + 56} (omega (arith, large, room))
              ∙ replicate_add k 56) in
        finish_from opened made (omega (arith, empty)) is_open.1
        ∙ ap (λ n. (put_bytes opened (replicate n 0 ++ bits)).state) {y = 56} (omega (arith, empty))
        ∙ ap (λ (t : Sha256). t.state)
            (put_bytes-append opened (replicate 56 0) bits
              ∙ sym (
                  put_bytes-append s (0x80 ∷ replicate m 0) bits
                  ∙ ap (λ zs. put_bytes (put_bytes s zs) bits) split
                  ∙ ap (λ t. put_bytes t bits)
                      (put_bytes-append s first (replicate 56 0)
                        ∙ ap (λ t. put_bytes t (replicate 56 0)) filled)))
  ]

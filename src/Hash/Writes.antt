-- ===== src/Hash/Writes.antt =====
-- What a run of bytes does to the block of a hash: the writes by themselves, and when they flush it.
use psprism.Base.{ap, ℕ, zero, suc, ◌+◌, ◌<◌, ◌≡◌, refl, sym, ◌∙◌, arith}
use psprism.Base.{
  ◌==◌, inl, inr, List, [], ◌∷◌, ◌++◌, length, length-set, set, replicate, Bool-cases,
}
use psprism.Hash.Sha256.{Sha256, write, flush, put_byte, put_bytes, fill}

-- Writes into a block from an index on.
abbrev pub overwrite : List ℕ → ℕ → List ℕ → List ℕ
overwrite block i [] = block
overwrite block i (x ∷ xs) = overwrite (set block i x) (suc i) xs

overwrite-suc :
    (y i : ℕ) (block xs : List ℕ) → overwrite (y ∷ block) (suc i) xs ≡ y ∷ overwrite block i xs
overwrite-suc y i block [] = refl
overwrite-suc y i block (x ∷ xs) = overwrite-suc y (suc i) (set block i x) xs

-- A block that is written from its start to its end is what was written.
pub overwrite-whole : (block xs : List ℕ) → length xs ≡ length block → overwrite block 0 xs ≡ xs
overwrite-whole [] [] h = refl
overwrite-whole [] (x ∷ xs) h = absurd (omega arith)
overwrite-whole (y ∷ block) [] h = absurd (omega arith)
overwrite-whole (y ∷ block) (x ∷ xs) h =
    overwrite-suc x 0 block xs ∙ ap (λ t. x ∷ t) (overwrite-whole block xs (omega arith))

pub overwrite-append :
    (block : List ℕ) (i : ℕ) (xs ys : List ℕ)
    → overwrite block i (xs ++ ys) ≡ overwrite (overwrite block i xs) (i + length xs) ys
overwrite-append block i [] ys = ap (λ n. overwrite block n ys) (omega arith)
overwrite-append block i (x ∷ xs) ys =
    overwrite-append (set block i x) (suc i) xs ys
    ∙ ap (λ n. overwrite (overwrite (set block i x) (suc i) xs) n ys) (omega arith)

pub length-overwrite :
    (block : List ℕ) (i : ℕ) (xs : List ℕ) → length (overwrite block i xs) ≡ length block
length-overwrite block i [] = refl
length-overwrite block i (x ∷ xs) =
    length-overwrite (set block i x) (suc i) xs ∙ length-set block i x

-- The last eight bytes of a block, written from the last one on or in their order.
pub tail_order :
    (k : ℕ) (block : List ℕ) (s t u v w x y z : ℕ)
    → length block ≡ suc (suc (suc (suc (suc (suc (suc (suc k)))))))
    → set
        (set
          (set
            (set
              (set
                (set
                  (set
                    (set block (suc (suc (suc (suc (suc (suc (suc k))))))) z)
                    (suc (suc (suc (suc (suc (suc k))))))
                    y)
                  (suc (suc (suc (suc (suc k)))))
                  x)
                (suc (suc (suc (suc k))))
                w)
              (suc (suc (suc k)))
              v)
            (suc (suc k))
            u)
          (suc k)
          t)
        k
        s
      ≡ overwrite block k (s ∷ t ∷ u ∷ v ∷ w ∷ x ∷ y ∷ z ∷ [])
tail_order zero (a ∷ b ∷ c ∷ d ∷ e ∷ f ∷ g ∷ h ∷ block) s t u v w x y z l = refl
tail_order zero [] s t u v w x y z l = absurd (omega arith)
tail_order zero (a ∷ []) s t u v w x y z l = absurd (omega arith)
tail_order zero (a ∷ b ∷ []) s t u v w x y z l = absurd (omega arith)
tail_order zero (a ∷ b ∷ c ∷ []) s t u v w x y z l = absurd (omega arith)
tail_order zero (a ∷ b ∷ c ∷ d ∷ []) s t u v w x y z l = absurd (omega arith)
tail_order zero (a ∷ b ∷ c ∷ d ∷ e ∷ []) s t u v w x y z l = absurd (omega arith)
tail_order zero (a ∷ b ∷ c ∷ d ∷ e ∷ f ∷ []) s t u v w x y z l = absurd (omega arith)
tail_order zero (a ∷ b ∷ c ∷ d ∷ e ∷ f ∷ g ∷ []) s t u v w x y z l = absurd (omega arith)
tail_order (suc k) [] s t u v w x y z l = absurd (omega arith)
tail_order (suc k) (a ∷ block) s t u v w x y z l =
    ap (λ r. a ∷ r) (tail_order k block s t u v w x y z (omega arith))
    ∙ sym (overwrite-suc a k block (s ∷ t ∷ u ∷ v ∷ w ∷ x ∷ y ∷ z ∷ []))

-- Writes without a flush.
abbrev pub writes : Sha256 → List ℕ → Sha256
writes s xs = record s {
  block = overwrite s.block s.block_size xs;
  block_size = s.block_size + length xs;
}

pub writes-cons : (s : Sha256) (x : ℕ) (xs : List ℕ) → writes (write s x) xs ≡ writes s (x ∷ xs)
unfolding write
writes-cons s x xs =
    ap
      (λ n. record s {
        block = overwrite (set s.block s.block_size x) (suc s.block_size) xs;
        block_size = n;
      })
      (omega arith)

writes-nil : (s : Sha256) → writes s [] ≡ s
writes-nil s = ap (λ n. record s { block_size = n }) (omega arith)

pub fill-writes : (count : ℕ) (s : Sha256) → fill count s ≡ writes s (replicate count 0)
unfolding fill
fill-writes zero s = sym (writes-nil s)
fill-writes (suc count) s = fill-writes count (write s 0) ∙ writes-cons s 0 (replicate count 0)

pub write-block_size : (s : Sha256) (x : ℕ) → (write s x).block_size ≡ suc s.block_size
unfolding write
write-block_size s x = refl

pub put_byte-open : (s : Sha256) (x : ℕ) → suc s.block_size < 64 → put_byte s x ≡ write s x
unfolding put_byte write
put_byte-open s x h = elim (Bool-cases (suc s.block_size == 64)) [
  | inl e ↦ absurd (ground (arith, e, h))
  | inr e ↦ rw e refl
]

pub put_byte-full : (s : Sha256) (x : ℕ) → suc s.block_size ≡ 64 → put_byte s x ≡ flush (write s x)
unfolding put_byte write
put_byte-full s x h = rw h refl

-- Bytes that leave the block open are written.
pub put_bytes-open :
    (s : Sha256) (xs : List ℕ) → s.block_size + length xs < 64 → put_bytes s xs ≡ writes s xs
unfolding put_bytes
put_bytes-open s [] h = sym (writes-nil s)
put_bytes-open s (x ∷ xs) h =
    ap (λ t. put_bytes t xs) (put_byte-open s x (omega arith))
    ∙ put_bytes-open (write s x) xs (omega (arith, write-block_size s x))
    ∙ writes-cons s x xs

-- Bytes that fill the block are written and flush it.
pub put_bytes-full :
    (s : Sha256) (xs : List ℕ)
    → s.block_size < 64
    → s.block_size + length xs ≡ 64
    → put_bytes s xs ≡ flush (writes s xs)
unfolding put_bytes
put_bytes-full s [] h e = absurd (omega arith)
put_bytes-full s (x ∷ []) h e =
    put_byte-full s x (omega arith) ∙ ap flush (sym (writes-nil (write s x)) ∙ writes-cons s x [])
put_bytes-full s (x ∷ y ∷ xs) h e =
    ap (λ t. put_bytes t (y ∷ xs)) (put_byte-open s x (omega arith))
    ∙ put_bytes-full (write s x) (y ∷ xs) (omega (arith, write-block_size s x))
        (omega (arith, write-block_size s x))
    ∙ ap flush (writes-cons s x (y ∷ xs))

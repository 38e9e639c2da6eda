-- ===== src/Hash/Streaming.antt =====
-- A hash does not depend on how its bytes are split into updates.
use psprism.Base.{ap, ℕ, suc, ◌+◌, ◌^◌, ◌<◌, ◌≡◌, refl, sym, ◌∙◌, arith, true, ◌==◌, inl, inr}
use psprism.Base.{List, [], ◌∷◌, ◌++◌, some, length, length-append, u64, Bool-cases}
use psprism.Hash.Sha256.{
  Sha256, ok, fresh, put_byte, put_bytes, update, update_chunks, finish, hex_digest, sha256_hex,
  sha256_file,
}

-- The bytes of some chunks.
abbrev pub concat : List (List ℕ) → List ℕ
concat [] = []
concat (chunk ∷ chunks) = chunk ++ concat chunks

abbrev counting : Sha256 → ℕ → Sha256
counting s n = record s { total_bytes = n }

put_byte-counting :
    (s : Sha256) (n byte : ℕ) → put_byte (counting s n) byte ≡ counting (put_byte s byte) n
unfolding put_byte
put_byte-counting s n byte = elim (Bool-cases (suc s.block_size == 64)) [
  | inl e ↦ rw e refl
  | inr e ↦ rw e refl
]

put_bytes-counting :
    (s : Sha256) (n : ℕ) (bytes : List ℕ)
    → put_bytes (counting s n) bytes ≡ counting (put_bytes s bytes) n
unfolding put_bytes
put_bytes-counting s n [] = refl
put_bytes-counting s n (byte ∷ bytes) =
    ap (λ t. put_bytes t bytes) (put_byte-counting s n byte)
    ∙ put_bytes-counting (put_byte s byte) n bytes

put_byte-total_bytes : (s : Sha256) (byte : ℕ) → (put_byte s byte).total_bytes ≡ s.total_bytes
unfolding put_byte
put_byte-total_bytes s byte = elim (Bool-cases (suc s.block_size == 64)) [
  | inl e ↦ rw e refl
  | inr e ↦ rw e refl
]

pub put_bytes-total_bytes :
    (s : Sha256) (bytes : List ℕ) → (put_bytes s bytes).total_bytes ≡ s.total_bytes
unfolding put_bytes
put_bytes-total_bytes s [] = refl
put_bytes-total_bytes s (byte ∷ bytes) =
    put_bytes-total_bytes (put_byte s byte) bytes ∙ put_byte-total_bytes s byte

pub put_bytes-append :
    (s : Sha256) (xs ys : List ℕ) → put_bytes s (xs ++ ys) ≡ put_bytes (put_bytes s xs) ys
unfolding put_bytes
put_bytes-append s [] ys = refl
put_bytes-append s (x ∷ xs) ys = put_bytes-append (put_byte s x) xs ys

-- Two updates are one update with the bytes of both, from every state of the object.
pub update-append : (s : Sha256) (xs ys : List ℕ) → update (update s xs) ys ≡ update s (xs ++ ys)
unfolding update
update-append s xs ys =
    let first = u64 (s.total_bytes + length xs) in
    let both = u64 (s.total_bytes + length (xs ++ ys)) in
    let total : u64 ((put_bytes (counting s first) xs).total_bytes + length ys) ≡ both =
      omega (arith, put_bytes-total_bytes (counting s first) xs, length-append xs ys) in
    ap (λ n. put_bytes (counting (put_bytes (counting s first) xs) n) ys) total
    ∙ ap (λ t. put_bytes t ys)
        (ap (λ t. counting t both) (put_bytes-counting s first xs)
          ∙ sym (put_bytes-counting s both xs))
    ∙ sym (put_bytes-append (counting s both) xs ys)

update-nil : (s : Sha256) → s.total_bytes < 2 ^ 64 → update s [] ≡ s
unfolding update put_bytes
update-nil s h =
    let same : u64 (s.total_bytes + 0) ≡ s.total_bytes = omega arith in ap (counting s) same

update-total_bytes : (s : Sha256) (xs : List ℕ) → (update s xs).total_bytes < 2 ^ 64
unfolding update
update-total_bytes s xs =
    omega (arith, put_bytes-total_bytes (counting s (u64 (s.total_bytes + length xs))) xs)

update_chunks-concat :
    (s : Sha256) (chunks : List (List ℕ))
    → s.total_bytes < 2 ^ 64
    → update_chunks s chunks ≡ update s (concat chunks)
unfolding update_chunks
update_chunks-concat s [] h = sym (update-nil s h)
update_chunks-concat s ([] ∷ chunks) h = update_chunks-concat s chunks h
update_chunks-concat s ((byte ∷ bytes) ∷ chunks) h =
    update_chunks-concat (update s (byte ∷ bytes)) chunks (update-total_bytes s (byte ∷ bytes))
    ∙ update-append s (byte ∷ bytes) (concat chunks)

-- The hash of a file that is read to its end is the hash of its bytes, however the stream splits them
-- into chunks, empty ones included.
pub sha256_file-sha256_hex :
    (chunks : List (List ℕ))
    → sha256_file (some (record { chunks = chunks; at_end = true }))
      ≡ ok (sha256_hex (concat chunks))
unfolding sha256_file sha256_hex
sha256_file-sha256_hex chunks =
    ap (λ s. ok (hex_digest (finish s))) (update_chunks-concat fresh chunks (omega arith))

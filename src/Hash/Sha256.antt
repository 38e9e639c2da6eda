-- ===== src/Hash/Sha256.antt =====
-- src/hash.cpp: the class Sha256 and its two clients. The exceptions are a result type.
use psprism.Base.{ℕ, zero, suc, ◌+◌, ◌-◌, ◌*◌, ◌%◌, Bool, ltb, ◌==◌, if◌then◌else◌}
use psprism.Base.{List, [], ◌∷◌, ◌++◌, Option, none, some, u8, u64, shr, length, set, replicate}
use psprism.Analysis.Text.{hex_digit}
use psprism.Hash.Block.{Round, compress}

pub record Sha256 : Type 0 where
  pub state : Round
  pub block : List ℕ
  pub block_size : ℕ
  pub total_bytes : ℕ

-- A default-constructed object.
abbrev pub fresh : Sha256
fresh = record {
  state = record {
    a = 0x6a09e667;
    b = 0xbb67ae85;
    c = 0x3c6ef372;
    d = 0xa54ff53a;
    e = 0x510e527f;
    f = 0x9b05688c;
    g = 0x1f83d9ab;
    h = 0x5be0cd19;
  };
  block = replicate 64 0;
  block_size = 0;
  total_bytes = 0;
}

unfoldable pub transform : Sha256 → Sha256
unfolding compress
transform s = record s { state = compress s.state s.block }

-- block_[block_size_++] = byte
unfoldable pub write : Sha256 → ℕ → Sha256
write s byte = record s { block = set s.block s.block_size byte; block_size = suc s.block_size }

-- A transformed object whose block is empty again.
unfoldable pub flush : Sha256 → Sha256
unfolding transform
flush s = record (transform s) { block_size = 0 }

-- The body of the loop of `update`.
unfoldable pub put_byte : Sha256 → ℕ → Sha256
unfolding write flush
put_byte s byte = if (write s byte).block_size == 64 then flush (write s byte) else write s byte

unfoldable pub put_bytes : Sha256 → List ℕ → Sha256
unfolding put_byte
put_bytes s [] = s
put_bytes s (byte ∷ bytes) = put_bytes (put_byte s byte) bytes

unfoldable pub update : Sha256 → List ℕ → Sha256
unfolding put_bytes
update s bytes = put_bytes (record s { total_bytes = u64 (s.total_bytes + length bytes) }) bytes

-- A `while` of `finish`, which writes zeros.
unfoldable pub fill : ℕ → Sha256 → Sha256
unfolding write
fill zero s = s
fill (suc count) s = fill count (write s 0)

-- The loop that stores the bit count, from an index on.
unfoldable pub put_count : ℕ → ℕ → ℕ → List ℕ → List ℕ
put_count zero index bit_count block = block
put_count (suc count) index bit_count block =
    put_count count (suc index) bit_count (set block (63 - index) (u8 (shr bit_count (index * 8))))

-- The `if` of `finish`: where the count does not fit the block, it is filled and flushed.
unfoldable pub make_room : Sha256 → Sha256
unfolding fill flush
make_room s = if ltb 56 s.block_size then flush (fill (64 - s.block_size) s) else s

-- The state at the end of `finish`.
unfoldable pub finish_state : Sha256 → Round
unfolding write fill make_room put_count compress
finish_state s =
    let bit_count = u64 (s.total_bytes * 8) in
    let opened = make_room (write s 0x80) in
    let padded = fill (56 - opened.block_size) opened in
    compress padded.state (put_count 8 0 bit_count padded.block)

abbrev pub word_bytes : ℕ → List ℕ
word_bytes word = u8 (shr word 24) ∷ u8 (shr word 16) ∷ u8 (shr word 8) ∷ u8 word ∷ []

unfoldable pub digest_of : Round → List ℕ
digest_of r =
    word_bytes r.a
    ++ word_bytes r.b
    ++ word_bytes r.c
    ++ word_bytes r.d
    ++ word_bytes r.e
    ++ word_bytes r.f
    ++ word_bytes r.g
    ++ word_bytes r.h

unfoldable pub finish : Sha256 → List ℕ
unfolding finish_state digest_of
finish s = digest_of (finish_state s)

unfoldable pub hex_digest : List ℕ → List ℕ
unfolding hex_digit
hex_digest [] = []
hex_digest (byte ∷ digest) = hex_digit (shr byte 4) ∷ hex_digit (byte % 16) ∷ hex_digest digest

unfoldable pub sha256_hex : List ℕ → List ℕ
unfolding update finish hex_digest
sha256_hex bytes = hex_digest (finish (update fresh bytes))

pub data HashError : Type 0 where
  cannot_open failed_hashing : HashError

pub data Digest : Type 0 where
  ok : List ℕ → Digest
  err : HashError → Digest

-- The chunks that a stream delivers, the last one perhaps empty, and whether it stopped at its end.
pub record Stream : Type 0 where
  pub chunks : List (List ℕ)
  pub at_end : Bool

-- The loop of `sha256_file`: a chunk without bytes is not hashed.
unfoldable pub update_chunks : Sha256 → List (List ℕ) → Sha256
unfolding update
update_chunks s [] = s
update_chunks s ([] ∷ chunks) = update_chunks s chunks
update_chunks s ((byte ∷ bytes) ∷ chunks) = update_chunks (update s (byte ∷ bytes)) chunks

unfoldable pub sha256_file : Option Stream → Digest
unfolding update_chunks finish hex_digest
sha256_file none = err cannot_open
sha256_file (some stream) =
    if stream.at_end
    then ok (hex_digest (finish (update_chunks fresh stream.chunks)))
    else err failed_hashing

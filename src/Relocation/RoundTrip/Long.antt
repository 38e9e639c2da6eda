-- ===== src/Relocation/RoundTrip/Long.antt =====
-- The long form of the compact stream: escape byte, tag and, where it changed, the metadata.
use psprism.Base.{ℕ, ◌+◌, ◌*◌, ◌/◌, ◌%◌, ◌^◌, ◌<◌, ◌≡◌, arith}
use psprism.Base.{bit_or, true, false, List, ◌++◌}
use psprism.Base.{Bool-cases, inl, inr}
use mathlib.Core.List.{append_assoc}
use psprism.Base.Int.{ℤ, pos, negsuc}
use psprism.Base.Bits.{bit_and_mask, bit_or_disjoint, bit_or_disjoint'}
use psprism.Relocation.Compact.{Decoder, finish, delta_of}
use psprism.Relocation.Compact.{read_metadata, next_from, read_tag, tag_of}
use psprism.Relocation.Encode.{Relocation, Emitter, metadata_bytes, metadata_changed, long_bytes}
use psprism.Relocation.Encode.{zigzag_of, emit_tag, tag_rounds}
use psprism.Relocation.RoundTrip.Short.{IsRelocation, with_fields}
use psprism.Relocation.RoundTrip.Tags.{read_tag-emit_tag}

packed_fields :
    (t p g : ℕ) → t < 16 → p < 4 → g < 4 → bit_or (bit_or t (p * 16)) (g * 64) ≡ t + p * 16 + g * 64
packed_fields t p g ht hp hg = ground (
  arith,
  bit_or_disjoint' 4 t (p * 16) (omega arith) (omega arith),
  bit_or_disjoint' 6 (t + p * 16) (g * 64) (omega arith) (omega arith),
)

-- The metadata reads back, in one byte or in four.
read_metadata-metadata_bytes :
    (d : Decoder) (r : Relocation) (rest : List ℕ)
    → IsRelocation r
    → read_metadata d (metadata_bytes r ++ rest) ≡ (true, record (with_fields d r) { rest = rest })
unfolding read_metadata metadata_bytes
read_metadata-metadata_bytes d r rest v = ground (
  arith,
  v,
  packed_fields r.type r.patch_segment r.target_segment,
  bit_and_mask 4 (r.type + r.patch_segment * 16 + r.target_segment * 64),
  bit_and_mask 2 ((r.type + r.patch_segment * 16 + r.target_segment * 64) / 16),
)

-- A delta between two 32-bit offsets.
abbrev pub IsDelta : ℤ → Type 0
IsDelta (pos d) = d < 2 ^ 32
IsDelta (negsuc m) = m < 2 ^ 32

zigzag-lt : (by : ℤ) → IsDelta by → zigzag_of by < 2 ^ 33
zigzag-lt (pos d) h = omega arith
zigzag-lt (negsuc m) h = omega arith

-- The tag of a delta, with the metadata bit `b`, carries both.
tag_fields : (z b : ℕ) → b < 2 → bit_or (z * 2) b ≡ z * 2 + b
tag_fields z b h = bit_or_disjoint 1 (z * 2) b (omega arith) (omega arith)

delta_of-zigzag : (by : ℤ) (b : ℕ) → IsDelta by → b < 2 → delta_of (zigzag_of by * 2 + b) ≡ by
unfolding delta_of
delta_of-zigzag (pos d) b h hb = ground (arith, bit_and_mask 1 (d * 2))
delta_of-zigzag (negsuc m) b h hb = ground (arith, bit_and_mask 1 (m * 2 + 1))

-- The reader has caught up with the writer: same offsets, same metadata.
pub record InSync (e : Emitter) (d : Decoder) : Type 0 where
  pub offsets : d.previous_offsets ≡ e.previous_offsets
  pub has : d.has_metadata ≡ e.have_metadata
  pub type : e.have_metadata ≡ true → d.type ≡ e.previous.type
  pub patch_segment : e.have_metadata ≡ true → d.patch_segment ≡ e.previous.patch_segment
  pub target_segment : e.have_metadata ≡ true → d.target_segment ≡ e.previous.target_segment

-- Where the writer leaves the metadata out, the reader holds it already.
unchanged :
    (e : Emitter) (d : Decoder) (r : Relocation)
    → InSync e d
    → metadata_changed e r ≡ false
    → (d.has_metadata ≡ true)
      × (d.type ≡ r.type)
      × (d.patch_segment ≡ r.patch_segment)
      × (d.target_segment ≡ r.target_segment)
unfolding metadata_changed
unchanged e d r s h = ground (
  arith,
  s.has,
  s.type (ground arith),
  s.patch_segment (ground arith),
  s.target_segment (ground arith),
)

read_changed_tag :
    (by : ℤ) (rest : List ℕ)
    → IsDelta by
    → read_tag (emit_tag tag_rounds ((bit_or (zigzag_of by * 2) 1) % 2 ^ 64) ++ rest) 0 0
      ≡ tag_of (zigzag_of by * 2 + 1) rest
read_changed_tag by rest h = ground (
  arith,
  tag_fields (zigzag_of by) 1,
  zigzag-lt by h,
  read_tag-emit_tag 4 tag_rounds (zigzag_of by * 2 + 1) 0 0 rest,
)

read_unchanged_tag :
    (by : ℤ) (rest : List ℕ)
    → IsDelta by
    → read_tag (emit_tag tag_rounds ((bit_or (zigzag_of by * 2) 0) % 2 ^ 64) ++ rest) 0 0
      ≡ tag_of (zigzag_of by * 2 + 0) rest
read_unchanged_tag by rest h = ground (
  arith,
  tag_fields (zigzag_of by) 0,
  zigzag-lt by h,
  read_tag-emit_tag 4 tag_rounds (zigzag_of by * 2 + 0) 0 0 rest,
)

changed_form :
    (e : Emitter) (d : Decoder) (r : Relocation) (by : ℤ) (rest : List ℕ)
    → IsRelocation r
    → IsDelta by
    → metadata_changed e r ≡ true
    → next_from d (long_bytes e r by ++ rest) ≡ finish (record (with_fields d r) { rest = rest }) by
unfolding next_from long_bytes
changed_form e d r by rest v h c =
    rw (c, append_assoc) ground
      (
        arith,
        read_changed_tag by (metadata_bytes r ++ rest) h,
        bit_and_mask 1 (zigzag_of by * 2 + 1),
        read_metadata-metadata_bytes (record d { rest = metadata_bytes r ++ rest }) r rest v,
        delta_of-zigzag by 1 h,
      )

unchanged_form :
    (e : Emitter) (d : Decoder) (r : Relocation) (by : ℤ) (rest : List ℕ)
    → InSync e d
    → IsDelta by
    → metadata_changed e r ≡ false
    → next_from d (long_bytes e r by ++ rest) ≡ finish (record (with_fields d r) { rest = rest }) by
unfolding next_from long_bytes
unchanged_form e d r by rest s h c =
    rw (c, append_assoc) ground
      (
        arith,
        read_unchanged_tag by rest h,
        bit_and_mask 1 (zigzag_of by * 2 + 0),
        unchanged e d r s c,
        delta_of-zigzag by 0 h,
      )

-- The long form reads back as the record's metadata and its delta.
pub next_from-long_bytes :
    (e : Emitter) (d : Decoder) (r : Relocation) (by : ℤ) (rest : List ℕ)
    → IsRelocation r
    → InSync e d
    → IsDelta by
    → next_from d (long_bytes e r by ++ rest) ≡ finish (record (with_fields d r) { rest = rest }) by
next_from-long_bytes e d r by rest v s h = elim (Bool-cases (metadata_changed e r)) [
  | inl c ↦ changed_form e d r by rest v h c
  | inr c ↦ unchanged_form e d r by rest s h c
]

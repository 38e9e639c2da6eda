-- ===== src/Relocation/RoundTrip/Short.antt =====
-- The two one-byte forms of the compact stream.
use psprism.Base.{ℕ, ◌+◌, ◌*◌, ◌/◌, ◌%◌, ◌≤◌, ◌<◌, ◌≡◌, ◌≢◌, arith}
use psprism.Base.{bit_or, true, IsU32, IsU8}
use psprism.Base.Int.{pos, sub_ℕ}
use psprism.Base.Bits.{bit_and_mask, bit_or_disjoint}
use psprism.Relocation.Records.{PspRelocationRecord}
use psprism.Relocation.Compact.{Decoder, yielded, update, finish, short_type}
use psprism.Relocation.Compact.{next_short}
use psprism.Relocation.Encode.{Relocation, type_code, extended_short_code, can_use_short}
use psprism.Relocation.Encode.{can_use_extended_short, short_byte, extended_short_byte}

-- The fields of a record are of the widths that its struct gives them.
pub record IsRelocation (r : Relocation) : Type 0 where
  pub offset : IsU32 r.offset
  pub type : IsU8 r.type
  pub patch_segment : IsU8 r.patch_segment
  pub target_segment : IsU8 r.target_segment

-- A record as relocation.hpp has it.
abbrev pub psp_record : Relocation → PspRelocationRecord
psp_record r = record {
  offset = r.offset;
  type = r.type;
  patch_segment = r.patch_segment;
  target_segment = r.target_segment;
  reserved = 0;
}

-- The metadata of a record, as the decoder holds it.
abbrev pub with_fields : Decoder → Relocation → Decoder
with_fields d r = record d {
  type = r.type;
  patch_segment = r.patch_segment;
  target_segment = r.target_segment;
  has_metadata = true;
}

-- The decoder behind a record that it has read.
abbrev pub after_read : Decoder → Relocation → Decoder
after_read d r = record (with_fields d r) {
  previous_offsets = update d.previous_offsets r.patch_segment r.offset;
}

-- The delta from the last offset of the segment leads to the offset of the record.
pub finish_lem :
    (d : Decoder) (r : Relocation)
    → IsU32 r.offset
    → finish (with_fields d r) (sub_ℕ r.offset (d.previous_offsets r.patch_segment))
      ≡ yielded (psp_record r) (after_read d r)
unfolding finish
finish_lem d r h = ground arith

type_code_bound : (t : ℕ) → type_code t ≢ 0xff → (type_code t ≤ 4) × (short_type (type_code t) ≡ t)
unfolding type_code short_type
type_code_bound t h = ground arith

extended_bound :
    (t : ℕ)
    → extended_short_code t ≢ 0xff
    → (5 ≤ extended_short_code t)
      × (extended_short_code t ≤ 7)
      × (short_type (extended_short_code t) ≡ t)
unfolding extended_short_code short_type
extended_bound t h = ground arith

-- What `can_use_short` grants.
record FitsShort (r : Relocation) (d : ℕ) : Type 0 where
  code : type_code r.type ≢ 0xff
  patch : r.patch_segment < 2
  target : r.target_segment < 2
  aligned : d % 4 ≡ 0
  near : d ≤ 28

can_use_short-FitsShort : (r : Relocation) (d : ℕ) → can_use_short r (pos d) ≡ true → FitsShort r d
unfolding can_use_short
can_use_short-FitsShort r d h = record {
  code = ground arith;
  patch = ground arith;
  target = ground arith;
  aligned = ground (arith, bit_and_mask 2 d);
  near = ground arith;
}

short_fields :
    (q t p c : ℕ)
    → q < 8
    → t < 2
    → p < 2
    → c ≤ 4
    → bit_or (bit_or (bit_or (q * 32) (t * 16)) (p * 8)) c ≡ q * 32 + t * 16 + p * 8 + c
short_fields q t p c hq ht hp hc = ground (
  arith,
  bit_or_disjoint 5 (q * 32) (t * 16) (omega arith) (omega arith),
  bit_or_disjoint 4 (q * 32 + t * 16) (p * 8) (omega arith) (omega arith),
  bit_or_disjoint 3 (q * 32 + t * 16 + p * 8) c (omega arith) (omega arith),
)

short_byte_fields :
    (r : Relocation) (d : ℕ)
    → FitsShort r d
    → short_byte r d ≡ d / 4 * 32 + r.target_segment * 16 + r.patch_segment * 8 + type_code r.type
unfolding short_byte
short_byte_fields r d h = ground (
  arith,
  type_code_bound r.type h.code,
  short_fields (d / 4) r.target_segment r.patch_segment (type_code r.type),
)

-- The short form is no escape byte, and reads back as the record's metadata and its delta.
pub next_short-short_byte :
    (s : Decoder) (r : Relocation) (d : ℕ)
    → can_use_short r (pos d) ≡ true
    → (short_byte r d ≢ 0xff) × (next_short s (short_byte r d) ≡ finish (with_fields s r) (pos d))
unfolding next_short
next_short-short_byte s r d h =
    let fits = can_use_short-FitsShort r d h in
    ground (
      arith,
      fits,
      type_code_bound r.type fits.code,
      short_byte_fields r d fits,
      bit_and_mask 3 (short_byte r d),
      bit_and_mask 1 (short_byte r d / 8),
      bit_and_mask 1 (short_byte r d / 16),
    )

-- What `can_use_extended_short` grants.
record FitsExtended (r : Relocation) (d : ℕ) : Type 0 where
  code : extended_short_code r.type ≢ 0xff
  patch : r.patch_segment ≡ 0
  target : r.target_segment ≡ 0
  aligned : d % 4 ≡ 0
  near : d ≤ 124
  no_escape : d ≡ 124 → extended_short_code r.type ≢ 7

can_use_extended_short-FitsExtended :
    (r : Relocation) (d : ℕ) → can_use_extended_short r (pos d) ≡ true → FitsExtended r d
unfolding can_use_extended_short
can_use_extended_short-FitsExtended r d h = record {
  code = ground arith;
  patch = ground arith;
  target = ground arith;
  aligned = ground (arith, bit_and_mask 2 d);
  near = ground arith;
  no_escape = λ e c. ground arith;
}

extended_short_byte_fields :
    (r : Relocation) (d : ℕ)
    → FitsExtended r d
    → extended_short_byte r d ≡ d / 4 * 8 + extended_short_code r.type
unfolding extended_short_byte
extended_short_byte_fields r d h = ground (
  arith,
  extended_bound r.type h.code,
  bit_or_disjoint 3 (d / 4 * 8) (extended_short_code r.type),
)

-- Likewise for the extended short form.
pub next_short-extended_short_byte :
    (s : Decoder) (r : Relocation) (d : ℕ)
    → can_use_extended_short r (pos d) ≡ true
    → (extended_short_byte r d ≢ 0xff)
      × (next_short s (extended_short_byte r d) ≡ finish (with_fields s r) (pos d))
unfolding next_short
next_short-extended_short_byte s r d h =
    let fits = can_use_extended_short-FitsExtended r d h in
    ground (
      arith,
      fits,
      fits.no_escape,
      extended_bound r.type fits.code,
      extended_short_byte_fields r d fits,
      bit_and_mask 3 (extended_short_byte r d),
    )

-- ===== src/Relocation/Compact.antt =====
-- include/psprecomp/relocation.hpp, CompactRelocationDecoder and apply_compact_psp_relocations: the
-- byte stream of deltas and metadata, and the relocation loop that reads it.
use psprism.Base.{ℕ, zero, suc, ◌+◌, ◌*◌, bit_and, bit_or, Bool, true, false}
use psprism.Base.{◌&&◌, List, [], ◌∷◌, Option, none, some, ltb, leb, ◌==◌}
use psprism.Base.{if◌then◌else◌, length, u32, u64, shl, shr}
use psprism.Base.Int.{ℤ, pos, negsuc, add_ℕ}
use psprism.Relocation.Records.{PspRelocationRecord, PspLoadSegment, Span}
use psprism.Relocation.Records.{null, array, success, invalid_patch, invalid_stream, missing_lo16}
use psprism.Relocation.Records.{Step, ok, stop, wild}
use psprism.Relocation.Apply.{Outcome, returned, fault, is_low_for, low_word_at, relocate_one}

-- The members of the class. `rest` is what the cursor has not reached of the bytes.
pub record Decoder : Type 0 where
  pub rest : List ℕ
  pub decoded : ℕ
  pub previous_offsets : ℕ → ℕ
  pub type : ℕ
  pub patch_segment : ℕ
  pub target_segment : ℕ
  pub has_metadata : Bool
  pub valid : Bool

-- The constructor.
abbrev pub decoder : List ℕ → Decoder
decoder bytes = record {
  rest = bytes;
  decoded = 0;
  previous_offsets = λ segment. 0;
  type = 0;
  patch_segment = 0;
  target_segment = 0;
  has_metadata = false;
  valid = true;
}

-- `next`: true with the record, or false; both with the decoder as it is left.
pub data Next : Type 0 where
  yielded : PspRelocationRecord → Decoder → Next
  refused : Decoder → Next

-- A write to one entry of the array of offsets.
abbrev pub update : (ℕ → ℕ) → ℕ → ℕ → ℕ → ℕ
update f i v j = if j == i then v else f j

abbrev invalidate : Decoder → Decoder
invalidate d = record d { valid = false }

-- The end of `next`: the offset moves by `delta`.
unfoldable pub finish : Decoder → ℤ → Next
finish d delta = elim (add_ℕ (d.previous_offsets d.patch_segment) delta) [
  | negsuc m ↦ refused (invalidate d)
  | pos next_offset ↦
      if ltb 0xffffffff next_offset
      then refused (invalidate d)
      else yielded
          (record {
            offset = u32 next_offset;
            type = d.type;
            patch_segment = d.patch_segment;
            target_segment = d.target_segment;
            reserved = 0;
          })
          (record d {
            previous_offsets = update d.previous_offsets d.patch_segment (u32 next_offset);
          })
]

-- The `switch` on the low three bits of a first byte other than 0xff.
unfoldable pub short_type : ℕ → ℕ
short_type code =
    if code == 0
    then 0
    else if code == 1
    then 2
    else if code == 2
    then 4
    else if code == 3
    then 5
    else if code == 4
    then 6
    else if code == 5
    then 2
    else if code == 6
    then 4
    else 6

unfoldable pub next_short : Decoder → ℕ → Next
unfolding finish short_type
next_short d first =
    if leb (bit_and first 0x07) 4
    then finish
        (record d {
          type = short_type (bit_and first 0x07);
          patch_segment = bit_and (shr first 3) 1;
          target_segment = bit_and (shr first 4) 1;
          has_metadata = true;
        })
        (pos (shr first 5 * 4))
    else finish
        (record d {
          type = short_type (bit_and first 0x07);
          patch_segment = 0;
          target_segment = 0;
          has_metadata = true;
        })
        (pos (shr first 3 * 4))

-- The loop over the groups of seven bits: the tag and what follows it, or where the loop gave up.
pub data Tag : Type 0 where
  tag_of : ℕ → List ℕ → Tag
  cut : List ℕ → Tag

unfoldable pub read_tag : List ℕ → ℕ → ℕ → Tag
read_tag [] tag shift = cut []
read_tag (byte ∷ rest) tag shift =
    let tag' = bit_or tag (u64 (shl (bit_and byte 0x7f) shift)) in
    let more = read_tag rest tag' (shift + 7) in
    if leb 63 shift
    then cut (byte ∷ rest)
    else if bit_and byte 0x80 == 0
    then tag_of tag' rest
    else more

-- The three bytes of metadata behind a byte 0xff. The Boolean is false where `next` gives up.
unfoldable pub read_wide : Decoder → List ℕ → Bool × Decoder
read_wide d (type ∷ patch ∷ target ∷ after) = (
  true,
  record d {
    rest = after;
    type = type;
    patch_segment = patch;
    target_segment = target;
    has_metadata = true;
  },
)
read_wide d rest = (false, record d { rest = rest; valid = false })

-- The metadata behind a tag with bit 0 set.
unfoldable pub read_metadata : Decoder → List ℕ → Bool × Decoder
unfolding read_wide
read_metadata d [] = (false, invalidate d)
read_metadata d (packed ∷ rest) = if packed == 0xff then read_wide d rest else (
  true,
  record d {
    rest = rest;
    type = bit_and packed 0x0f;
    patch_segment = bit_and (shr packed 4) 0x03;
    target_segment = shr packed 6;
    has_metadata = true;
  },
)

-- The delta in a tag: bit 1 is its sign, as in a zigzag code.
unfoldable pub delta_of : ℕ → ℤ
delta_of tag =
    let zigzag = shr tag 1 in
    let magnitude = shr zigzag 1 in
    if bit_and zigzag 1 == 0 then pos magnitude else negsuc magnitude

-- After the metadata, if the tag announces any.
unfoldable pub with_metadata : Bool × Decoder → ℕ → Next
unfolding finish delta_of
with_metadata (false, d) tag = refused d
with_metadata (true, d) tag =
    if d.has_metadata then finish d (delta_of tag) else refused (invalidate d)

unfoldable pub next_long : Decoder → Next
unfolding read_tag read_metadata with_metadata
next_long d = elim (read_tag d.rest 0 0) [
  | cut rest ↦ refused (record d { rest = rest; valid = false })
  | tag_of tag rest ↦
      let d' : Decoder = record d { rest = rest } in
      with_metadata (if bit_and tag 1 == 0 then (true, d') else read_metadata d' rest) tag
]

unfoldable pub next_from : Decoder → List ℕ → Next
unfolding next_short next_long
next_from d [] = refused (invalidate d)
next_from d (first ∷ rest) =
    if first == 0xff
    then next_long (record d { rest = rest })
    else next_short (record d { rest = rest }) first

unfoldable pub next : Decoder → Next
unfolding next_from
next d = next_from d d.rest

abbrev pub note_decoded : Decoder → Decoder
note_decoded d = record d { decoded = d.decoded + 1 }

unfoldable pub consumed : Decoder → ℕ → Bool
consumed d relocation_count = d.valid && d.decoded == relocation_count && length d.rest == 0

-- The search for the paired LO16 with a copy of the decoder, for the records left after this one.
unfoldable pub find_low_ahead : List PspLoadSegment → ℕ → ℕ → Decoder → List ℕ → Step ℕ
find_low_ahead segments target_segment zero lookahead memory = stop missing_lo16
find_low_ahead segments target_segment (suc left) lookahead memory = elim (next lookahead) [
  | refused d ↦ stop invalid_stream
  | yielded low d ↦
      if is_low_for target_segment low
      then low_word_at segments memory low
      else find_low_ahead segments target_segment left (note_decoded d) memory
]

-- The loop, with `left` records still to be read of `relocation_count`.
unfoldable pub compact_loop : List PspLoadSegment → ℕ → ℕ → ℕ → Decoder → List ℕ → Outcome
compact_loop segments guest_base relocation_count zero d memory =
    if consumed d relocation_count then returned success memory else returned invalid_stream memory
compact_loop segments guest_base relocation_count (suc left) d memory = elim (next d) [
  | refused d' ↦ returned invalid_stream memory
  | yielded r d' ↦
      elim (relocate_one segments guest_base r
        (find_low_ahead segments r.target_segment left (note_decoded d') memory) memory) [
          | ok memory' ↦
              compact_loop segments guest_base relocation_count left (note_decoded d') memory'
          | stop e ↦ returned e memory
          | wild ↦ fault
        ]
]

unfoldable pub apply_compact_psp_relocations :
    Option (List ℕ) → ℕ → Option (List PspLoadSegment) → Span ℕ → ℕ → Outcome
apply_compact_psp_relocations none guest_base segments bytes count = returned invalid_patch []
apply_compact_psp_relocations (some memory) guest_base none bytes count =
    returned invalid_patch memory
apply_compact_psp_relocations (some memory) guest_base (some segments) (null byte_count) count =
    if byte_count == 0
    then compact_loop segments guest_base count count (decoder []) memory
    else returned invalid_patch memory
apply_compact_psp_relocations (some memory) guest_base (some segments) (array bytes) count =
    compact_loop segments guest_base count count (decoder bytes) memory

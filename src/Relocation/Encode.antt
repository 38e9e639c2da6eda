-- ===== src/Relocation/Encode.antt =====
-- src/emitter/relocations.cpp, compact_relocations: the writer of the compact stream. The bytes that
-- one record appends are a list of their own, and the vector is their concatenation.
use psprism.Base.{ℕ, zero, suc, ◌+◌, ◌*◌, ◌/◌, bit_and, bit_or, Bool, true, false}
use psprism.Base.{not, ◌||◌, ◌&&◌, List, [], ◌∷◌, ◌++◌, ltb, leb, ◌==◌, if◌then◌else◌}
use psprism.Base.{u8, u64, shl, shr}
use psprism.Base.Int.{ℤ, pos, negsuc, sub_ℕ}
use psprism.Relocation.Compact.{update}

-- elf.hpp
pub record Relocation : Type 0 where
  pub offset : ℕ
  pub type : ℕ
  pub patch_segment : ℕ
  pub target_segment : ℕ

-- The variables that the loop carries from one record to the next.
pub record Emitter : Type 0 where
  pub previous_offsets : ℕ → ℕ
  pub previous : Relocation
  pub have_metadata : Bool

abbrev pub emitter : Emitter
emitter = record {
  previous_offsets = λ segment. 0;
  previous = record { offset = 0; type = 0; patch_segment = 0; target_segment = 0 };
  have_metadata = false;
}

unfoldable pub type_code : ℕ → ℕ
type_code type =
    if type == 0
    then 0
    else if type == 2
    then 1
    else if type == 4
    then 2
    else if type == 5
    then 3
    else if type == 6
    then 4
    else 0xff

unfoldable pub extended_short_code : ℕ → ℕ
extended_short_code type =
    if type == 2 then 5 else if type == 4 then 6 else if type == 6 then 7 else 0xff

abbrev pub delta : Emitter → Relocation → ℤ
delta e r = sub_ℕ r.offset (e.previous_offsets r.patch_segment)

unfoldable pub can_use_short : Relocation → ℤ → Bool
can_use_short r (negsuc m) = false
can_use_short r (pos d) =
    not (type_code r.type == 0xff)
    && ltb r.patch_segment 2
    && ltb r.target_segment 2
    && bit_and d 3 == 0
    && leb d 28

unfoldable pub can_use_extended_short : Relocation → ℤ → Bool
can_use_extended_short r (negsuc m) = false
can_use_extended_short r (pos d) =
    not (extended_short_code r.type == 0xff)
    && r.patch_segment == 0
    && r.target_segment == 0
    && bit_and d 3 == 0
    && leb d 124
    && not (extended_short_code r.type == 7 && d == 124)

unfoldable pub short_byte : Relocation → ℕ → ℕ
short_byte r d = u8 (
    bit_or (bit_or (bit_or (shl (d / 4) 5) (shl r.target_segment 4)) (shl r.patch_segment 3))
      (type_code r.type))

unfoldable pub extended_short_byte : Relocation → ℕ → ℕ
extended_short_byte r d = u8 (bit_or (shl (d / 4) 3) (extended_short_code r.type))

-- A sign bit below the magnitude.
abbrev pub zigzag_of : ℤ → ℕ
zigzag_of (pos d) = u64 (d * 2)
zigzag_of (negsuc m) = u64 (m * 2 + 1)

-- The do-while loop. A tag below 2 ^ 64 is shifted out after ten rounds.
unfoldable pub emit_tag : ℕ → ℕ → List ℕ
emit_tag zero tag = []
emit_tag (suc fuel) tag =
    let byte = bit_and tag 0x7f in
    let more = emit_tag fuel (shr tag 7) in
    if shr tag 7 == 0 then byte ∷ [] else bit_or byte 0x80 ∷ more

abbrev pub tag_rounds : ℕ
tag_rounds = 10

unfoldable pub metadata_changed : Emitter → Relocation → Bool
metadata_changed e r =
    not e.have_metadata
    || not (r.type == e.previous.type)
    || not (r.patch_segment == e.previous.patch_segment)
    || not (r.target_segment == e.previous.target_segment)

unfoldable pub metadata_bytes : Relocation → List ℕ
metadata_bytes r =
    let can_pack = ltb r.type 16 && ltb r.patch_segment 4 && ltb r.target_segment 4 in
    let packed = u8 (bit_or (bit_or r.type (shl r.patch_segment 4)) (shl r.target_segment 6)) in
    if can_pack && not (packed == 0xff)
    then packed ∷ []
    else 0xff ∷ r.type ∷ r.patch_segment ∷ r.target_segment ∷ []

unfoldable pub long_bytes : Emitter → Relocation → ℤ → List ℕ
long_bytes e r by =
    let changed = metadata_changed e r in
    let tag = u64 (bit_or (shl (zigzag_of by) 1) (if changed then 1 else 0)) in
    0xff ∷ (emit_tag tag_rounds tag ++ (if changed then metadata_bytes r else []))

-- What one record appends.
unfoldable pub emit : Emitter → Relocation → ℤ → List ℕ
emit e r (pos d) =
    if can_use_short r (pos d)
    then short_byte r d ∷ []
    else if can_use_extended_short r (pos d)
    then extended_short_byte r d ∷ []
    else long_bytes e r (pos d)
emit e r (negsuc m) = long_bytes e r (negsuc m)

-- All three exits of the loop body leave these values.
abbrev pub emitted : Emitter → Relocation → Emitter
emitted e r = record {
  previous_offsets = update e.previous_offsets r.patch_segment r.offset;
  previous = r;
  have_metadata = true;
}

unfoldable pub compact_from : Emitter → List Relocation → List ℕ
compact_from e [] = []
compact_from e (r ∷ rs) = emit e r (delta e r) ++ compact_from (emitted e r) rs

unfoldable pub compact_relocations : List Relocation → List ℕ
compact_relocations relocations = compact_from emitter relocations

-- ===== src/Elf/Modules.antt =====
-- loader.cpp: the module information in the memory image, its gp value and its imports.
use psprism.Base.{
  ℕ, zero, suc, ◌+◌, ◌-◌, ◌*◌, Bool, false, not, ◌&&◌, ◌||◌, ltb, leb, ◌==◌, if◌then◌else◌,
}
use psprism.Base.{List, [], ◌∷◌, ◌++◌, u32, length, drop, Option, none, some}
use psprism.Base.Text.{codes, same_text}
use psprism.Relocation.Encode.{Relocation}
use psprism.Elf.Types.{
  LoadSegment, SectionHeader, ProgramLoadHeader, Import, Result, ok, err, ◌>>=◌, address_below_base,
  string_outside, string_too_long, unterminated_string, invalid_gp_relocation,
  truncated_import_table, invalid_import_length,
}
use psprism.Elf.Bytes.{byte_at, u16_at, u32_at, string_at}

-- The section's address by its name.
unfoldable pub info_by_name : List ℕ → List SectionHeader → Result (Option ℕ)
unfolding string_at
info_by_name names [] = ok none
info_by_name names (header ∷ headers) =
    let rest = info_by_name names headers in
    (do
      name ← string_at names header.name
      if same_text name (codes ".rodata.sceModuleInfo") && leb 0x34 header.size
          then ok (some header.address)
          else rest)

-- The loop over the program headers: the segment that has the offset.
unfoldable pub info_in_programs : ℕ → List ProgramLoadHeader → Option ℕ
info_in_programs at [] = none
info_in_programs at (segment ∷ segments) =
    let rest = info_in_programs at segments in
    if leb segment.file_offset at
      && leb (at - segment.file_offset) segment.file_size
      && leb 0x34 (segment.file_size - (at - segment.file_offset))
    then some (u32 (segment.address + (at - segment.file_offset)))
    else rest

unfoldable pub info_by_offset : ℕ → List ProgramLoadHeader → Option ℕ
unfolding info_in_programs
info_by_offset type [] = none
info_by_offset type (program ∷ programs) =
    if type == 0xffa0 then info_in_programs program.physical_address (program ∷ programs) else none

unfoldable pub find_program : ℕ → List LoadSegment → Option LoadSegment
find_program index [] = none
find_program index (segment ∷ segments) =
    let rest = find_program index segments in
    if segment.program_index == index then some segment else rest

-- Does a relocation set the gp field?
unfoldable pub is_gp_relocation : List LoadSegment → ℕ → Relocation → Bool
unfolding find_program
is_gp_relocation segments gp_pointer relocation =
    elim (find_program relocation.patch_segment segments) [
      | none ↦ false
      | some patch ↦ relocation.type == 2 && u32 (patch.address + relocation.offset) == gp_pointer
    ]

-- The loop over the relocations, for the gp value.
unfoldable pub gp_value : List LoadSegment → ℕ → ℕ → List Relocation → Result ℕ
unfolding find_program is_gp_relocation
gp_value segments gp_pointer stored [] = ok stored
gp_value segments gp_pointer stored (relocation ∷ relocations) =
    let rest = gp_value segments gp_pointer stored relocations in
    if not (is_gp_relocation segments gp_pointer relocation)
    then rest
    else elim (find_program relocation.target_segment segments) [
      | none ↦ err invalid_gp_relocation
      | some target ↦ ok (u32 (stored + target.address))
    ]

-- At most 255 bytes, of which `used` are read.
unfoldable pub short_string : ℕ → List ℕ → Result (List ℕ)
short_string used [] = err unterminated_string
short_string used (byte ∷ bytes) =
    let rest : Result (List ℕ) = (do name ← short_string (suc used) bytes; ok (byte ∷ name)) in
    if byte == 0 then ok [] else if ltb 255 (suc used) then err string_too_long else rest

-- The lambdas `image_offset`, `image_u32` and `image_string`, and the walk over the imports, in the
-- memory image `flat`.
module _ (base : ℕ) (flat : List ℕ) where
  unfoldable pub image_offset : ℕ → Result ℕ
  image_offset address = if ltb address base then err address_below_base else ok (address - base)

  unfoldable pub image_u32 : ℕ → Result ℕ
  unfolding image_offset u32_at
  image_u32 address = do offset ← image_offset address; u32_at flat offset

  unfoldable pub image_string : ℕ → Result (List ℕ)
  unfolding image_offset short_string
  image_string address = do
    offset ← image_offset address
    if leb (length flat) offset then err string_outside else short_string 0 (drop offset flat)

  -- `count` functions of a library, from an index on.
  unfoldable pub functions_from : List ℕ → ℕ → ℕ → ℕ → ℕ → ℕ → Result (List Import)
  unfolding image_u32 image_offset
  functions_from library flags nid_table stub_table index zero = ok []
  functions_from library flags nid_table stub_table index (suc count) = do
    nid ← image_u32 (u32 (nid_table + index * 4))
    stub ← image_offset stub_table
    rest ← functions_from library flags nid_table stub_table (suc index) count
    ok (
        record {
          library = library;
          nid = nid;
          stub_address = u32 (stub + index * 8);
          library_flags = flags;
        }
        ∷ rest)

  -- One entry of the import table: its length in bytes, and its functions.
  unfoldable pub import_entry : ℕ → ℕ → Result (ℕ × List Import)
  unfolding u16_at u32_at image_string functions_from
  import_entry cursor stub_end =
      if ltb (length flat) cursor || ltb (length flat - cursor) 20
      then err truncated_import_table
      else (do
        library_address ← u32_at flat cursor
        library_flags ← u32_at flat (cursor + 4)
        let length_words = byte_at flat (cursor + 8)
        function_count ← u16_at flat (cursor + 10)
        nid_table ← u32_at flat (cursor + 12)
        stub_table ← u32_at flat (cursor + 16)
        if ltb length_words 5 || ltb (stub_end - cursor) (length_words * 4)
            then err invalid_import_length
            else (do
              library ← image_string library_address
              functions ← functions_from library library_flags nid_table stub_table 0 function_count
              ok (length_words * 4, functions)))

  -- The walk; `none` is that the fuel ends before the table.
  unfoldable pub imports_from : ℕ → ℕ → ℕ → Option (Result (List Import))
  unfolding import_entry
  imports_from zero cursor stub_end = if ltb cursor stub_end then none else some (ok [])
  imports_from (suc fuel) cursor stub_end =
      if ltb cursor stub_end
      then elim (import_entry cursor stub_end) [
        | err e ↦ some (err e)
        | ok (size, functions) ↦ elim (imports_from fuel (cursor + size) stub_end) [
          | none ↦ none
          | some (err e) ↦ some (err e)
          | some (ok rest) ↦ some (ok (functions ++ rest))
        ]
      ]
      else some (ok [])

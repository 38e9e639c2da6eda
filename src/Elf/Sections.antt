-- ===== src/Elf/Sections.antt =====
-- loader.cpp: the section table, the executable sections and the relocation sections.
use psprism.Base.{
  ℕ, zero, suc, ◌+◌, ◌-◌, ◌*◌, ◌/◌, ◌^◌, Bool, not, ◌&&◌, ◌||◌, ltb, leb, ◌==◌, if◌then◌else◌,
}
use psprism.Base.{List, [], ◌∷◌, ◌++◌, bit_and, shr, u32, length, get_elem?, none, some}
use psprism.Relocation.Encode.{Relocation}
use psprism.Elf.Types.{
  ExecutableSection, SectionHeader, Result, ok, err, ◌>>=◌, invalid_section_table,
  section_table_outside, name_table_outside, section_outside, section_unaligned, no_code,
  invalid_relocation_section,
}
use psprism.Elf.Bytes.{u16_at, u32_at, string_at, slice}

unfoldable pub section_at : List ℕ → ℕ → Result SectionHeader
unfolding u32_at
section_at file base = do
  name ← u32_at file base
  type ← u32_at file (base + 4)
  flags ← u32_at file (base + 8)
  address ← u32_at file (base + 12)
  offset ← u32_at file (base + 16)
  size ← u32_at file (base + 20)
  info ← u32_at file (base + 28)
  ok (record {
    name = name;
    type = type;
    flags = flags;
    address = address;
    offset = offset;
    size = size;
    info = info;
  })

unfoldable pub sections_from : List ℕ → ℕ → ℕ → ℕ → ℕ → Result (List SectionHeader)
unfolding section_at
sections_from file table entry_size index zero = ok []
sections_from file table entry_size index (suc count) = do
  header ← section_at file (table + index * entry_size)
  headers ← sections_from file table entry_size (suc index) count
  ok (header ∷ headers)

abbrev pub is_outside : List ℕ → SectionHeader → Bool
is_outside file header =
    ltb (length file) header.offset || ltb (length file - header.offset) header.size

-- The section with the names; its index is in the table.
unfoldable pub read_names : List ℕ → List SectionHeader → ℕ → Result (List ℕ)
read_names file headers index = elim (get_elem? headers index) [
  | none ↦ err name_table_outside
  | some header ↦
      if is_outside file header
      then err name_table_outside
      else ok (slice file header.offset header.size)
]

-- The headers and the names.
unfoldable pub read_sections : List ℕ → Result (List SectionHeader × List ℕ)
unfolding u16_at u32_at sections_from read_names
read_sections file = do
  section_offset ← u32_at file 32
  section_entry_size ← u16_at file 46
  section_count ← u16_at file 48
  name_table_index ← u16_at file 50
  if ltb section_entry_size 40 || leb section_count name_table_index
      then err invalid_section_table
      else if ltb (length file) (section_count * section_entry_size)
          || ltb (length file - section_count * section_entry_size) section_offset
      then err section_table_outside
      else (do
        headers ← sections_from file section_offset section_entry_size 0 section_count
        names ← read_names file headers name_table_index
        ok (headers, names))

abbrev pub is_code : SectionHeader → Bool
is_code header = header.type == 1 && not (bit_and header.flags 4 == 0) && not (header.size == 0)

unfoldable pub code_section : List ℕ → List ℕ → ℕ → SectionHeader → Result ExecutableSection
unfolding string_at
code_section file names preferred_base header =
    if is_outside file header
    then err section_outside
    else if not (bit_and header.address 3 == 0) || not (bit_and header.size 3 == 0)
    then err section_unaligned
    else (do
      name ← string_at names header.name
      ok (record {
        name = name;
        address = u32 (header.address + 2 ^ 32 - preferred_base);
        bytes = slice file header.offset header.size;
      }))

unfoldable pub code_sections :
    List ℕ → List ℕ → ℕ → List SectionHeader → Result (List ExecutableSection)
unfolding code_section
code_sections file names preferred_base [] = ok []
code_sections file names preferred_base (header ∷ headers) =
    let rest = code_sections file names preferred_base headers in
    let both : Result (List ExecutableSection) = (do
      section ← code_section file names preferred_base header
      sections ← rest
      ok (section ∷ sections)) in
    if is_code header then both else rest

unfoldable pub read_code :
    List ℕ → List ℕ → ℕ → List SectionHeader → Result (List ExecutableSection)
unfolding code_sections
read_code file names preferred_base headers = do
  sections ← code_sections file names preferred_base headers
  elim sections [ [] ↦ err no_code | section ∷ rest ↦ ok (section ∷ rest) ]

-- `count` relocations from an offset on.
unfoldable pub relocations_from : List ℕ → ℕ → ℕ → Result (List Relocation)
unfolding u32_at
relocations_from file offset zero = ok []
relocations_from file offset (suc count) = do
  relocation_offset ← u32_at file (u32 offset)
  info ← u32_at file (u32 (offset + 4))
  rest ← relocations_from file (offset + 8) count
  ok (
      record {
        offset = relocation_offset;
        type = bit_and info 15;
        patch_segment = bit_and (shr info 8) 0xff;
        target_segment = bit_and (shr info 16) 0xff;
      }
      ∷ rest)

unfoldable pub read_relocations : List ℕ → List SectionHeader → Result (List Relocation)
unfolding relocations_from
read_relocations file [] = ok []
read_relocations file (header ∷ headers) =
    let rest = read_relocations file headers in
    let both : Result (List Relocation) = (do
      first ← relocations_from file header.offset (header.size / 8)
      others ← rest
      ok (first ++ others)) in
    if not (header.type == 0x700000a0)
    then rest
    else if not (bit_and header.size 7 == 0) || is_outside file header
    then err invalid_relocation_section
    else both

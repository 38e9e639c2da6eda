-- ===== src/Elf/Load.antt =====
-- loader.cpp: `load_elf`.
use psprism.Base.{ℕ, ◌+◌, not, ◌&&◌, ◌||◌, ltb, ◌==◌, if◌then◌else◌}
use psprism.Base.{List, [], u32, length, map, Option, none, some}
use psprism.Elf.Types.{
  LoadSegment, SectionHeader, ProgramLoadHeader, Import, ElfImage, Result, ok, err, ◌>>=◌,
  cannot_open_input, incomplete_file, not_elf, not_little_endian, not_mips, invalid_import_range,
}
use psprism.Elf.Bytes.{byte_at, u16_at, u32_at}
use psprism.Elf.Image.{memory_image}
use psprism.Elf.Programs.{read_programs, choose_base}
use psprism.Elf.Sections.{read_sections, read_code, read_relocations}
use psprism.Elf.Modules.{
  info_by_name, info_by_offset, gp_value, image_offset, image_u32, imports_from,
}

-- The tests of the identification and the machine.
unfoldable pub check_header : List ℕ → Result (Unit {0})
unfolding u16_at
check_header file =
    if ltb (length file) 52
    then err incomplete_file
    else if not (
        byte_at file 0 == 0x7f
        && byte_at file 1 == 69
        && byte_at file 2 == 76
        && byte_at file 3 == 70)
    then err not_elf
    else if not (byte_at file 4 == 1 && byte_at file 5 == 1)
    then err not_little_endian
    else (do machine ← u16_at file 18; if machine == 8 then ok tt else err not_mips)

-- The address of the module information.
unfoldable pub find_module_info :
    List ℕ → List ℕ → List SectionHeader → List ProgramLoadHeader → Result (Option ℕ)
unfolding u16_at info_by_name info_by_offset
find_module_info file names headers programs = do
  named ← info_by_name names headers
  type ← u16_at file 16
  ok (elim named [ some address ↦ some address | none ↦ info_by_offset type programs ])

-- The import table between two addresses of the image, with fuel for each of its bytes.
unfoldable pub read_imports : ℕ → List ℕ → ℕ → ℕ → Option (Result (List Import))
unfolding imports_from
read_imports base flat stub_begin stub_end =
    if ltb stub_end stub_begin || ltb (length flat) stub_end
    then some (err invalid_import_range)
    else imports_from base flat stub_end stub_begin stub_end

-- The place of the gp value, the value, and the two ends of the import table.
unfoldable pub module_fields : ElfImage → List ℕ → ℕ → Result (ℕ × ℕ × ℕ × ℕ)
unfolding image_offset image_u32 gp_value
module_fields image flat address = do
  let base = image.preferred_base
  gp_pointer ← image_offset base flat (u32 (address + 0x20))
  stored ← image_u32 base flat (u32 (address + 0x20))
  gp ← gp_value image.load_segments gp_pointer stored image.relocations
  first ← image_u32 base flat (u32 (address + 0x2c))
  stub_begin ← image_offset base flat first
  last ← image_u32 base flat (u32 (address + 0x30))
  stub_end ← image_offset base flat last
  ok (gp_pointer, gp, stub_begin, stub_end)

-- What the module information at an address adds to the image.
unfoldable pub read_module : ElfImage → List ℕ → ℕ → Option (Result ElfImage)
unfolding module_fields read_imports
read_module image flat address = elim (module_fields image flat address) [
  | err e ↦ some (err e)
  | ok (gp_pointer, gp, stub_begin, stub_end) ↦
      elim (read_imports image.preferred_base flat stub_begin stub_end) [
        | none ↦ none
        | some (err e) ↦ some (err e)
        | some (ok imports) ↦ some (
            ok (record image {
              gp_pointer_offset = gp_pointer;
              gp_value_offset = gp;
              imports = imports;
            }))
      ]
]

abbrev pub segments_of : List (LoadSegment × ProgramLoadHeader) → List LoadSegment
segments_of programs = map (λ p. p.0) programs

abbrev headers_of : List (LoadSegment × ProgramLoadHeader) → List ProgramLoadHeader
headers_of programs = map (λ p. p.1) programs

-- The image without the module information, its memory, and where that information is.
unfoldable pub read_image : List ℕ → Result (ElfImage × List ℕ × Option ℕ)
unfolding check_header u32_at read_programs choose_base read_sections read_code read_relocations
    memory_image find_module_info
read_image file = do
  checked ← check_header file
  entry ← u32_at file 24
  programs ← read_programs file
  based ← choose_base entry (segments_of programs)
  let base = based.0
  let segments = based.2
  tables ← read_sections file
  code ← read_code file tables.1 base tables.0
  relocations ← read_relocations file tables.0
  flat ← memory_image segments
  info ← find_module_info file tables.1 tables.0 (headers_of programs)
  ok (
    record {
      entry = based.1;
      preferred_base = base;
      gp_pointer_offset = 0xffffffff;
      gp_value_offset = 0;
      executable_sections = code;
      load_segments = segments;
      relocations = relocations;
      imports = [];
    },
    flat,
    info,
  )

-- The file as its bytes, or one that cannot be read.
unfoldable pub load_elf : Option (List ℕ) → Option (Result ElfImage)
unfolding read_image read_module
load_elf none = some (err cannot_open_input)
load_elf (some file) = elim (read_image file) [
  | err e ↦ some (err e)
  | ok (image, flat, none) ↦ some (ok image)
  | ok (image, flat, some address) ↦ read_module image flat address
]

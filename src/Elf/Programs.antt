-- ===== src/Elf/Programs.antt =====
-- loader.cpp: the program table and the preferred base.
use psprism.Base.{
  ℕ, zero, suc, ◌+◌, ◌-◌, ◌*◌, Bool, true, false, not, ◌&&◌, ◌||◌, ltb, leb, ◌==◌, if◌then◌else◌,
  List, [], ◌∷◌,
}
use psprism.Base.{Option, none, some, length, u8}
use psprism.Elf.Types.{
  LoadSegment, ProgramLoadHeader, Result, ok, err, ◌>>=◌, invalid_program_table,
  invalid_load_segment, entry_below_base,
}
use psprism.Elf.Bytes.{u16_at, u32_at, slice}

-- The fields of a program header, its place in memory and in the file.
pub record ProgramHeader : Type 0 where
  pub header : ProgramLoadHeader
  pub memory_size : ℕ
  pub flags : ℕ

unfoldable pub program_header : List ℕ → ℕ → Result ProgramHeader
unfolding u32_at
program_header file base = do
  file_offset ← u32_at file (base + 4)
  address ← u32_at file (base + 8)
  physical_address ← u32_at file (base + 12)
  file_size ← u32_at file (base + 16)
  memory_size ← u32_at file (base + 20)
  flags ← u32_at file (base + 24)
  ok (record {
    header = record {
      file_offset = file_offset;
      address = address;
      physical_address = physical_address;
      file_size = file_size;
    };
    memory_size = memory_size;
    flags = flags;
  })

-- A header that is loaded.
unfoldable pub load_program : List ℕ → ℕ → ProgramHeader → Result (LoadSegment × ProgramLoadHeader)
load_program file index program =
    let header = program.header in
    if ltb program.memory_size header.file_size
      || ltb (length file) header.file_offset
      || ltb (length file - header.file_offset) header.file_size
    then err invalid_load_segment
    else ok (
      record {
        program_index = u8 index;
        address = header.address;
        memory_size = program.memory_size;
        flags = program.flags;
        bytes = slice file header.file_offset header.file_size;
      },
      header,
    )

-- One program header; `none` is one that is not loaded.
unfoldable pub program_at : List ℕ → ℕ → ℕ → Result (Option (LoadSegment × ProgramLoadHeader))
unfolding u32_at program_header load_program
program_at file base index = do
  type ← u32_at file base
  if not (type == 1) then ok none else (do
    program ← program_header file base
    loaded ← load_program file index program
    ok (some loaded))

-- The loop over `count` headers from `index` on.
unfoldable pub programs_from :
    List ℕ → ℕ → ℕ → ℕ → ℕ → Result (List (LoadSegment × ProgramLoadHeader))
unfolding program_at
programs_from file table entry_size index zero = ok []
programs_from file table entry_size index (suc count) = do
  program ← program_at file (table + index * entry_size) index
  programs ← programs_from file table entry_size (suc index) count
  ok (elim program [ none ↦ programs | some p ↦ p ∷ programs ])

unfoldable pub read_programs : List ℕ → Result (List (LoadSegment × ProgramLoadHeader))
unfolding u16_at u32_at programs_from
read_programs file = do
  program_offset ← u32_at file 28
  program_entry_size ← u16_at file 42
  program_count ← u16_at file 44
  if not (program_count == 0) && ltb program_entry_size 32
        || ltb (length file) (program_count * program_entry_size)
        || ltb (length file - program_count * program_entry_size) program_offset
      then err invalid_program_table
      else programs_from file program_offset program_entry_size 0 program_count

abbrev pub psp_user_base : ℕ
psp_user_base = 0x08000000

abbrev pub psp_user_end : ℕ
psp_user_end = 0x0c000000

abbrev pub is_user_segment : LoadSegment → Bool
is_user_segment segment =
    leb psp_user_base segment.address
    && ltb segment.address psp_user_end
    && leb segment.memory_size (psp_user_end - segment.address)

abbrev pub all_user : List LoadSegment → Bool
all_user [] = true
all_user (segment ∷ segments) = is_user_segment segment && all_user segments

abbrev pub is_fixed : List LoadSegment → Bool
is_fixed [] = false
is_fixed (segment ∷ segments) = all_user (segment ∷ segments)

unfoldable pub rebase : ℕ → List LoadSegment → List LoadSegment
rebase base [] = []
rebase base (segment ∷ segments) =
    record segment { address = segment.address - base } ∷ rebase base segments

-- The preferred base, the entry and the segments.
unfoldable pub choose_base : ℕ → List LoadSegment → Result (ℕ × ℕ × List LoadSegment)
unfolding rebase
choose_base entry segments =
    if not (is_fixed segments)
    then ok (0, entry, segments)
    else if ltb entry psp_user_base
    then err entry_below_base
    else ok (psp_user_base, entry - psp_user_base, rebase psp_user_base segments)

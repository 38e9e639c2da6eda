-- ===== src/Elf/Tests.antt =====
-- A small file: a header and one loaded program of two bytes in four bytes of memory.
use psprism.Base.{ℕ, ◌≡◌, refl, List, [], ◌∷◌, ◌++◌, replicate, length, some}
use psprism.Elf.Types.{LoadSegment, ProgramLoadHeader, ElfImage, Result, ok}
use psprism.Elf.Image.{memory_size, memory_image}
use psprism.Elf.Programs.{read_programs, choose_base}
use psprism.Elf.Load.{load_elf, segments_of}
use psprism.Elf.Total.{load_elf-returns}
use psprism.Base.{get_elem?, some, arith}
use psprism.Elf.Contents.{last_byte, memory_image-last_byte}
use psprism.Elf.Fits.{memory_image-read_programs}

-- The program table is at 52, with one entry of 32 bytes; the two bytes follow it.
abbrev file : List ℕ
file =
    replicate 28 0
    ++ (52 ∷ 0 ∷ 0 ∷ 0 ∷ [])
    ++ replicate 10 0
    ++ (32 ∷ 0 ∷ 1 ∷ 0 ∷ [])
    ++ replicate 6 0
    ++ (1 ∷ 0 ∷ 0 ∷ 0 ∷ 84 ∷ 0 ∷ 0 ∷ 0 ∷ 0 ∷ 0 ∷ 0 ∷ 0 ∷ 0 ∷ 0 ∷ 0 ∷ 0 ∷ [])
    ++ (2 ∷ 0 ∷ 0 ∷ 0 ∷ 4 ∷ 0 ∷ 0 ∷ 0 ∷ 5 ∷ 0 ∷ 0 ∷ 0 ∷ 0 ∷ 0 ∷ 0 ∷ 0 ∷ [])
    ++ (0xaa ∷ 0xbb ∷ [])

abbrev segment : LoadSegment
segment = record {
  program_index = 0;
  address = 0;
  memory_size = 4;
  flags = 5;
  bytes = 0xaa ∷ 0xbb ∷ [];
}

abbrev header : ProgramLoadHeader
header = record { file_offset = 84; address = 0; physical_address = 0; file_size = 2 }

file_read : read_programs file ≡ ok ((segment, header) ∷ [])
unfolding read_programs
file_read = refl

segment_based : choose_base 0 (segments_of ((segment, header) ∷ [])) ≡ ok (0, 0, segment ∷ [])
unfolding choose_base
segment_based = refl

segment_sized : memory_size (segment ∷ []) ≡ ok 4
unfolding memory_size
segment_sized = refl

memory_image-read_programs_example :
    (flat : List ℕ) × (memory_image (segment ∷ []) ≡ ok flat) × (length flat ≡ 4)
memory_image-read_programs_example =
    memory_image-read_programs file 0 file_read segment_based segment_sized

load_elf-returns_example : (r : Result ElfImage) × (load_elf (some file) ≡ some r)
load_elf-returns_example = load_elf-returns (some file)

abbrev flat : List ℕ
flat = 0xaa ∷ 0xbb ∷ 0 ∷ 0 ∷ []

segment_copied : memory_image (segment ∷ []) ≡ ok flat
unfolding memory_image
segment_copied = refl

memory_image-last_byte_example : get_elem? flat 1 ≡ last_byte (some 0) (segment ∷ []) 1
memory_image-last_byte_example =
    memory_image-last_byte (segment ∷ []) 1 segment_sized segment_copied (omega arith)

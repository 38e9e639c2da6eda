-- ===== src/Elf/Types.antt =====
-- src/elf.hpp and the headers of src/elf/loader.cpp, and the errors that loading throws. A text is
-- its bytes.
use psprism.Base.{ℕ, List, ◌≡◌, ◌⊎◌, inl, inr, refl}
use psprism.Relocation.Encode.{Relocation}

pub record ExecutableSection : Type 0 where
  pub name : List ℕ
  pub address : ℕ
  pub bytes : List ℕ

pub record LoadSegment : Type 0 where
  pub program_index : ℕ
  pub address : ℕ
  pub memory_size : ℕ
  pub flags : ℕ
  pub bytes : List ℕ

pub record Import : Type 0 where
  pub library : List ℕ
  pub nid : ℕ
  pub stub_address : ℕ
  pub library_flags : ℕ

pub record ElfImage : Type 0 where
  pub entry : ℕ
  pub preferred_base : ℕ
  pub gp_pointer_offset : ℕ
  pub gp_value_offset : ℕ
  pub executable_sections : List ExecutableSection
  pub load_segments : List LoadSegment
  pub relocations : List Relocation
  pub imports : List Import

pub record SectionHeader : Type 0 where
  pub name : ℕ
  pub type : ℕ
  pub flags : ℕ
  pub address : ℕ
  pub offset : ℕ
  pub size : ℕ
  pub info : ℕ

pub record ProgramLoadHeader : Type 0 where
  pub file_offset : ℕ
  pub address : ℕ
  pub physical_address : ℕ
  pub file_size : ℕ

-- The exceptions, in the order of the code.
pub data ElfError : Type 0 where
  truncated_field invalid_name_offset unterminated_name cannot_open_input incomplete_file : ElfError
  not_elf not_little_endian not_mips invalid_program_table invalid_load_segment : ElfError
  entry_below_base invalid_section_table section_table_outside name_table_outside : ElfError
  section_outside section_unaligned no_code invalid_relocation_section : ElfError
  segment_overflow segment_outside address_below_base string_outside string_too_long : ElfError
  unterminated_string invalid_gp_relocation invalid_import_range truncated_import_table : ElfError
  invalid_import_length : ElfError

pub data Result {ℓ} (A : Type ℓ) : Type ℓ where
  ok : A → Result A
  err : ElfError → Result A

infixl 5 ◌>>=◌
abbrev pub ◌>>=◌ {ℓ κ} : {A : Type ℓ} {B : Type κ} → Result A → (A → Result B) → Result B
ok a >>= f = f a
err e >>= f = err e

pub Result-cases {ℓ} :
    {A : Type ℓ} (r : Result A) → ((a : A) × (r ≡ ok a)) ⊎ ((e : ElfError) × (r ≡ err e))
Result-cases (ok a) = inl (a, refl)
Result-cases (err e) = inr (e, refl)

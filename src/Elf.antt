-- ===== src/Elf.antt =====
-- The ELF and PRX loader: src/elf/loader.cpp, and the memory image of src/elf/image.cpp.
pub mod Types
pub mod Bytes
pub mod Image
pub mod Programs
pub mod Sections
pub mod Modules
pub mod Load
pub mod Total
pub mod Fits
pub mod Contents
mod Tests

-- ===== src/Relocation.antt =====
-- Relocation of a loaded PSP module: include/psprecomp/relocation.hpp, which patches the guest
-- image at start-up, and src/emitter/relocations.cpp, which writes the compact stream that one of
-- its two entry points reads.
pub mod Records
pub mod Apply
pub mod Compact
pub mod Encode
pub mod RoundTrip
pub mod Refinement
pub mod Memory
pub mod Values
pub mod Bounds
mod Tests

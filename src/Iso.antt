-- ===== src/Iso.antt =====
-- The ISO 9660 reader: src/iso.cpp.
pub mod Types
pub mod Names
pub mod Directory
pub mod Records
pub mod Ends
pub mod Safe
pub mod Order
pub mod Lookup
mod Tests

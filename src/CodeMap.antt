-- ===== src/CodeMap.antt =====
-- The code map, a text file that names functions, blocks and excluded ranges: src/elf/code_map.cpp,
-- and the look-ups of src/elf/image.cpp.
pub mod Types
pub mod Tokens
pub mod Lines
pub mod Normalise
pub mod Load
pub mod Lookup
pub mod Ranges
pub mod Parsed
pub mod Merged
pub mod Overlaps
pub mod Starts
pub mod Errors
mod Tests

-- ===== src/Hash.antt =====
-- Content hashes: src/hash.cpp.
pub mod Block
pub mod Sha256
pub mod Streaming
pub mod Writes
pub mod Standard
pub mod Padding
pub mod Agreement
pub mod Chain
mod Tests

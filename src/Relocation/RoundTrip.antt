-- ===== src/Relocation/RoundTrip.antt =====
-- What the writer of the compact stream emits for a record, the reader reads back.
pub mod Tags
pub mod Short
pub mod Long
pub mod Stream

-- ===== src/Decoder.antt =====
-- The Allegrex instruction decoder that the translator and the interpreter share:
-- include/psprecomp/allegrex_decoder.hpp, with the two classifiers of include/psprecomp/vfpu.hpp that
-- it calls.
pub mod InstructionFlag
pub mod Instruction
pub mod Vfpu
pub mod Tables
pub mod Decode
pub mod Patterns
pub mod Flags
mod Tests

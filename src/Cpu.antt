-- ===== src/Cpu.antt =====
-- The guest CPU: the state and memory access of include/psprecomp/runtime.hpp, and the interpreter of
-- include/psprecomp/interpreter.hpp.
pub mod State
pub mod Bitwise
pub mod Memory
pub mod Execute
pub mod Laws
pub mod Sample
mod Tests

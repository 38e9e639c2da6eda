-- ===== src/Cpu/Execute.antt =====
-- include/psprecomp/interpreter.hpp, interpret_allegrex: one instruction. The children have the cases
-- of its `switch` by opcode; each works on the state that the prologue of the function leaves.
pub mod Control
pub mod Special
pub mod Float
pub mod Special3
pub mod Transfer
pub mod Interpret

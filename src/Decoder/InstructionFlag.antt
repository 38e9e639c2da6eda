-- ===== src/Decoder/InstructionFlag.antt =====
-- include/psprecomp/allegrex_decoder.hpp, InstructionFlag: bits of one byte.
use psprism.Base.{ℕ}

abbrev pub none : ℕ
none = 0

abbrev pub delayed_branch : ℕ
delayed_branch = 1

abbrev pub likely : ℕ
likely = 2

abbrev pub call : ℕ
call = 4

abbrev pub dynamic_target : ℕ
dynamic_target = 8

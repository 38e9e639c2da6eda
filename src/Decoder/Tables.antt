-- ===== src/Decoder/Tables.antt =====
-- include/psprecomp/allegrex_decoder.hpp: the pattern tables and their search. The entries from
-- "jr" on, which have one mask, are a list of their own.
use psprism.Base.{ℕ, bit_and, List, [], ◌∷◌, Option, none, some, ◌==◌, if◌then◌else◌}
use Prim.Native.String.{String}

pub data InstructionPattern : Type 0 where
  pattern_of : ℕ → ℕ → String → InstructionPattern

unfoldable pub special_rest : List InstructionPattern
special_rest =
    pattern_of 0xfc00003f 0x00000008 "jr"
    ∷ pattern_of 0xfc00003f 0x00000009 "jalr"
    ∷ pattern_of 0xfc00003f 0x0000000a "movz"
    ∷ pattern_of 0xfc00003f 0x0000000b "movn"
    ∷ pattern_of 0xfc00003f 0x0000000c "syscall"
    ∷ pattern_of 0xfc00003f 0x0000000d "break"
    ∷ pattern_of 0xfc00003f 0x0000000f "sync"
    ∷ pattern_of 0xfc00003f 0x00000010 "mfhi"
    ∷ pattern_of 0xfc00003f 0x00000011 "mthi"
    ∷ pattern_of 0xfc00003f 0x00000012 "mflo"
    ∷ pattern_of 0xfc00003f 0x00000013 "mtlo"
    ∷ pattern_of 0xfc00003f 0x00000016 "clz"
    ∷ pattern_of 0xfc00003f 0x00000017 "clo"
    ∷ pattern_of 0xfc00003f 0x00000018 "mult"
    ∷ pattern_of 0xfc00003f 0x00000019 "multu"
    ∷ pattern_of 0xfc00003f 0x0000001a "div"
    ∷ pattern_of 0xfc00003f 0x0000001b "divu"
    ∷ pattern_of 0xfc00003f 0x0000001c "madd"
    ∷ pattern_of 0xfc00003f 0x0000001d "maddu"
    ∷ pattern_of 0xfc00003f 0x00000020 "add"
    ∷ pattern_of 0xfc00003f 0x00000021 "addu"
    ∷ pattern_of 0xfc00003f 0x00000022 "sub"
    ∷ pattern_of 0xfc00003f 0x00000023 "subu"
    ∷ pattern_of 0xfc00003f 0x00000024 "and"
    ∷ pattern_of 0xfc00003f 0x00000025 "or"
    ∷ pattern_of 0xfc00003f 0x00000026 "xor"
    ∷ pattern_of 0xfc00003f 0x00000027 "nor"
    ∷ pattern_of 0xfc00003f 0x0000002a "slt"
    ∷ pattern_of 0xfc00003f 0x0000002b "sltu"
    ∷ pattern_of 0xfc00003f 0x0000002c "max"
    ∷ pattern_of 0xfc00003f 0x0000002d "min"
    ∷ pattern_of 0xfc00003f 0x0000002e "msub"
    ∷ pattern_of 0xfc00003f 0x0000002f "msubu"
    ∷ []

unfoldable pub special_patterns : List InstructionPattern
special_patterns =
    pattern_of 0xffe0003f 0x00200002 "rotr"
    ∷ pattern_of 0xfc0007ff 0x00000046 "rotrv"
    ∷ pattern_of 0xffe0003f 0x00000002 "srl"
    ∷ pattern_of 0xfc0007ff 0x00000006 "srlv"
    ∷ pattern_of 0xffe0003f 0x00000000 "sll"
    ∷ pattern_of 0xffe0003f 0x00000003 "sra"
    ∷ pattern_of 0xfc0007ff 0x00000004 "sllv"
    ∷ pattern_of 0xfc0007ff 0x00000007 "srav"
    ∷ special_rest

unfoldable pub regimm_patterns : List InstructionPattern
regimm_patterns =
    pattern_of 0xfc1f0000 0x04000000 "bltz"
    ∷ pattern_of 0xfc1f0000 0x04010000 "bgez"
    ∷ pattern_of 0xfc1f0000 0x04020000 "bltzl"
    ∷ pattern_of 0xfc1f0000 0x04030000 "bgezl"
    ∷ pattern_of 0xfc1f0000 0x04100000 "bltzal"
    ∷ pattern_of 0xfc1f0000 0x04110000 "bgezal"
    ∷ pattern_of 0xfc1f0000 0x04120000 "bltzall"
    ∷ pattern_of 0xfc1f0000 0x04130000 "bgezall"
    ∷ []

-- `none` is the null pointer; `some` carries the name of the entry.
unfoldable pub find_pattern : ℕ → List InstructionPattern → Option String
find_pattern word [] = none
find_pattern word (pattern_of mask match name ∷ patterns) =
    if bit_and word mask == match then some name else find_pattern word patterns

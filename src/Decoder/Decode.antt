-- ===== src/Decoder/Decode.antt =====
-- include/psprecomp/allegrex_decoder.hpp, decode_allegrex: its four groups of opcodes and the
-- dispatch between them.
use psprism.Base.{ℕ, bit_and, bit_or, Bool, ◌&&◌, ◌||◌, ◌==◌, leb}
use psprism.Base.{if◌then◌else◌, Option, none, some}
use psprism.Decoder.Instruction.{InstructionLowering, runtime_fallback, guarded_native}
use psprism.Decoder.Instruction.{DecodedInstruction, fields, as_native}
use psprism.Decoder.InstructionFlag.{delayed_branch, likely, call, dynamic_target}
use psprism.Decoder.InstructionFlag.{none as no_flags}
use psprism.Decoder.Vfpu.{VfpuStaticOperation, vfpu_static_operation, vfpu_opcode_supported}
use Prim.Native.String.{String}

-- The branch for vector instructions.
unfoldable pub vfpu_name : VfpuStaticOperation → String
vfpu_name VfpuStaticOperation.add = "vadd"
vfpu_name VfpuStaticOperation.subtract = "vsub"
vfpu_name VfpuStaticOperation.multiply = "vmul"
vfpu_name VfpuStaticOperation.dot = "vdot"
vfpu_name VfpuStaticOperation.move = "vmov"
vfpu_name VfpuStaticOperation.none = "vfpu"

unfoldable pub vfpu_lowering : VfpuStaticOperation → InstructionLowering
vfpu_lowering VfpuStaticOperation.none = runtime_fallback
vfpu_lowering _ = guarded_native

unfoldable pub decode_vfpu : DecodedInstruction → DecodedInstruction
unfolding vfpu_name vfpu_lowering
decode_vfpu d =
    let operation = vfpu_static_operation d.word in
    record d {
      lowering = vfpu_lowering operation;
      name = vfpu_name operation;
      flags =
          if d.op == 0x12 && d.rs == 0x08
          then (if bit_and d.rt 2 == 0 then delayed_branch else bit_or delayed_branch likely)
          else d.flags;
    }

-- The cases of the opcode 0 that look at the function alone and set no flag.
unfoldable pub special_rest_name : ℕ → Option String
special_rest_name function =
    if function == 0x0a
    then some "movz"
    else if function == 0x0b
    then some "movn"
    else if function == 0x0c
    then some "syscall"
    else if function == 0x0d
    then some "break"
    else if function == 0x0f
    then some "sync"
    else if function == 0x10
    then some "mfhi"
    else if function == 0x11
    then some "mthi"
    else if function == 0x12
    then some "mflo"
    else if function == 0x13
    then some "mtlo"
    else if function == 0x16
    then some "clz"
    else if function == 0x17
    then some "clo"
    else if function == 0x18
    then some "mult"
    else if function == 0x19
    then some "multu"
    else if function == 0x1a
    then some "div"
    else if function == 0x1b
    then some "divu"
    else if function == 0x1c
    then some "madd"
    else if function == 0x1d
    then some "maddu"
    else if function == 0x20
    then some "add"
    else if function == 0x21
    then some "addu"
    else if function == 0x22
    then some "sub"
    else if function == 0x23
    then some "subu"
    else if function == 0x24
    then some "and"
    else if function == 0x25
    then some "or"
    else if function == 0x26
    then some "xor"
    else if function == 0x27
    then some "nor"
    else if function == 0x2a
    then some "slt"
    else if function == 0x2b
    then some "sltu"
    else if function == 0x2c
    then some "max"
    else if function == 0x2d
    then some "min"
    else if function == 0x2e
    then some "msub"
    else if function == 0x2f
    then some "msubu"
    else none

-- The `switch` of the opcode 0; `none` is the invalid instruction.
unfoldable pub special_name : ℕ → ℕ → ℕ → Option String
special_name rs shift function =
    if function == 0x00
    then (if rs == 0 then some "sll" else none)
    else if function == 0x02
    then (if rs == 1 then some "rotr" else if rs == 0 then some "srl" else none)
    else if function == 0x03
    then (if rs == 0 then some "sra" else none)
    else if function == 0x04
    then (if shift == 0 then some "sllv" else none)
    else if function == 0x06
    then (if shift == 1 then some "rotrv" else if shift == 0 then some "srlv" else none)
    else if function == 0x07
    then (if shift == 0 then some "srav" else none)
    else if function == 0x08
    then some "jr"
    else if function == 0x09
    then some "jalr"
    else special_rest_name function

unfoldable pub special_flags : ℕ → ℕ
special_flags function =
    if function == 0x08
    then bit_or delayed_branch dynamic_target
    else if function == 0x09
    then bit_or (bit_or delayed_branch dynamic_target) call
    else no_flags

unfoldable pub decode_special : DecodedInstruction → DecodedInstruction
decode_special d = elim (special_name d.rs d.shift d.function) [
  | some name ↦ as_native d name (special_flags d.function)
  | none ↦ d
]

-- The `switch` of the opcode 1.
unfoldable pub decode_regimm : DecodedInstruction → DecodedInstruction
decode_regimm d =
    if d.rt == 0x00
    then as_native d "bltz" delayed_branch
    else if d.rt == 0x01
    then as_native d "bgez" delayed_branch
    else if d.rt == 0x02
    then as_native d "bltzl" (bit_or delayed_branch likely)
    else if d.rt == 0x03
    then as_native d "bgezl" (bit_or delayed_branch likely)
    else if d.rt == 0x10
    then as_native d "bltzal" (bit_or delayed_branch call)
    else if d.rt == 0x11
    then as_native d "bgezal" (bit_or delayed_branch call)
    else if d.rt == 0x12
    then as_native d "bltzall" (bit_or delayed_branch (bit_or call likely))
    else if d.rt == 0x13
    then as_native d "bgezall" (bit_or delayed_branch (bit_or call likely))
    else d

-- The opcode 0x11.
unfoldable pub decode_cop1 : DecodedInstruction → DecodedInstruction
decode_cop1 d =
    let scalar_operation =
      d.rs == 0x10
      && (leb d.function 0x07
          || (leb 0x0c d.function && leb d.function 0x0f)
          || d.function == 0x11
          || d.function == 0x20
          || d.function == 0x24
          || leb 0x30 d.function) in
    let word_to_single = d.rs == 0x14 && d.function == 0x20 in
    if d.rs == 0x00
      || d.rs == 0x02
      || d.rs == 0x04
      || d.rs == 0x06
      || scalar_operation
      || word_to_single
    then as_native d "cop1" no_flags
    else if d.rs == 0x08
    then as_native d "bc1"
        (bit_or delayed_branch (if bit_and d.rt 2 == 0 then no_flags else likely))
    else d

-- The opcode 0x1f.
abbrev pub is_special3 : DecodedInstruction → Bool
is_special3 d =
    d.function == 0
    || (d.function == 4 && leb d.shift d.rd)
    || (d.function == 0x20
        && (d.shift == 0x02
            || d.shift == 0x03
            || d.shift == 0x10
            || d.shift == 0x14
            || d.shift == 0x18))

-- The opcodes that do arithmetic with an immediate, or access memory.
unfoldable pub plain_name : ℕ → Option String
plain_name op =
    if op == 0x08
    then some "addi"
    else if op == 0x09
    then some "addiu"
    else if op == 0x0a
    then some "slti"
    else if op == 0x0b
    then some "sltiu"
    else if op == 0x0c
    then some "andi"
    else if op == 0x0d
    then some "ori"
    else if op == 0x0e
    then some "xori"
    else if op == 0x0f
    then some "lui"
    else if op == 0x20
    then some "lb"
    else if op == 0x21
    then some "lh"
    else if op == 0x22
    then some "lwl"
    else if op == 0x23
    then some "lw"
    else if op == 0x24
    then some "lbu"
    else if op == 0x25
    then some "lhu"
    else if op == 0x26
    then some "lwr"
    else if op == 0x28
    then some "sb"
    else if op == 0x29
    then some "sh"
    else if op == 0x2a
    then some "swl"
    else if op == 0x2b
    then some "sw"
    else if op == 0x2e
    then some "swr"
    else if op == 0x2f
    then some "cache"
    else if op == 0x30
    then some "ll"
    else if op == 0x31
    then some "lwc1"
    else if op == 0x38
    then some "sc"
    else if op == 0x39
    then some "swc1"
    else none

-- The last `switch`, on the opcode.
unfoldable pub decode_primary : DecodedInstruction → DecodedInstruction
unfolding decode_cop1
decode_primary d =
    if d.op == 0x02
    then as_native d "j" delayed_branch
    else if d.op == 0x03
    then as_native d "jal" (bit_or delayed_branch call)
    else if d.op == 0x04
    then as_native d "beq" delayed_branch
    else if d.op == 0x05
    then as_native d "bne" delayed_branch
    else if d.op == 0x06
    then as_native d "blez" delayed_branch
    else if d.op == 0x07
    then as_native d "bgtz" delayed_branch
    else if d.op == 0x11
    then decode_cop1 d
    else if d.op == 0x14
    then as_native d "beql" (bit_or delayed_branch likely)
    else if d.op == 0x15
    then as_native d "bnel" (bit_or delayed_branch likely)
    else if d.op == 0x16
    then as_native d "blezl" (bit_or delayed_branch likely)
    else if d.op == 0x17
    then as_native d "bgtzl" (bit_or delayed_branch likely)
    else if d.op == 0x1c
    then (if d.function == 0x20 || d.function == 0x21 || d.function == 0x2c || d.function == 0x2d
        then as_native d "special2" no_flags
        else d)
    else if d.op == 0x1f
    then (if is_special3 d then as_native d "special3" no_flags else d)
    else elim (plain_name d.op) [ some name ↦ as_native d name no_flags | none ↦ d ]

unfoldable pub decode_allegrex : ℕ → DecodedInstruction
decode_allegrex word =
    let d = fields word in
    if vfpu_opcode_supported word
    then decode_vfpu d
    else if d.op == 0
    then decode_special d
    else if d.op == 1
    then decode_regimm d
    else decode_primary d

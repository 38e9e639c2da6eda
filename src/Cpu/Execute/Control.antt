-- ===== src/Cpu/Execute/Control.antt =====
-- interpreter.hpp: the lambdas `fail` and `branch`, and the branches and jumps.
use psprism.Base.{ℕ, ◌+◌, ◌*◌, bit_and, bit_or, Bool, true, not, ◌&&◌, ◌||◌}
use psprism.Base.{leb, ◌==◌, if◌then◌else◌, u32, shl, sign_extend16}
use psprism.Decoder.Instruction.{DecodedInstruction}
use psprism.Cpu.State.{State, unsupported_instruction, set_gpr}
use psprism.Cpu.Bitwise.{is_negative}

abbrev pub immediate : DecodedInstruction → ℕ
immediate d = bit_and d.word 0xffff

-- The bits of `signed_immediate`.
abbrev pub signed_immediate : DecodedInstruction → ℕ
signed_immediate d = sign_extend16 (immediate d)

unfoldable pub fail : State → DecodedInstruction → ℕ → State
fail s d current_pc = record s {
  stop_reason = unsupported_instruction;
  fault_pc = current_pc;
  fault_address = current_pc;
  fault_instruction = d.word;
}

unfoldable pub branch : State → DecodedInstruction → ℕ → Bool → Bool → State
branch s d current_pc condition likely =
    if condition
    then record s {
      branch_pending = true;
      branch_target = u32 (u32 (current_pc + 4) + u32 (signed_immediate d * 4));
    }
    else if likely
    then record s { pc = u32 (current_pc + 8) }
    else s

-- The opcode 1.
unfoldable pub exec_regimm : State → DecodedInstruction → ℕ → State
exec_regimm s d current_pc =
    let ge = d.rt == 0x01 || d.rt == 0x03 || d.rt == 0x11 || d.rt == 0x13 in
    let likely = d.rt == 0x02 || d.rt == 0x03 || d.rt == 0x12 || d.rt == 0x13 in
    let link = leb 0x10 d.rt && leb d.rt 0x13 in
    if not (d.rt == 0x00)
      && not (d.rt == 0x01)
      && not (d.rt == 0x02)
      && not (d.rt == 0x03)
      && not (d.rt == 0x10)
      && not (d.rt == 0x11)
      && not (d.rt == 0x12)
      && not (d.rt == 0x13)
    then fail s d current_pc
    else (let s' = if link then set_gpr s 31 (u32 (current_pc + 8)) else s in
        branch s' d current_pc
          (if ge then not (is_negative (s'.gpr d.rs)) else is_negative (s'.gpr d.rs)) likely)

-- The opcodes 2 and 3.
unfoldable pub exec_jump : State → DecodedInstruction → ℕ → State
exec_jump s d current_pc =
    let s' = if d.op == 0x03 then set_gpr s 31 (u32 (current_pc + 8)) else s in
    record s' {
      branch_pending = true;
      branch_target =
          bit_or (bit_and (u32 (current_pc + 4)) 0xf0000000)
            (u32 (shl (bit_and d.word 0x03ffffff) 2));
    }

-- as_s32(a) <= 0
abbrev pub is_nonpositive : ℕ → Bool
is_nonpositive a = is_negative a || a == 0

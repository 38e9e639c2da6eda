-- ===== src/Cpu/Execute/Interpret.antt =====
-- interpreter.hpp: interpret_allegrex, from the fetch to the delayed branch. The vector instructions,
-- which include/psprecomp/vfpu.hpp executes, are a parameter.
use psprism.Base.{ℕ, ◌+◌, bit_and, Bool, true, false, not, ◌&&◌, ◌||◌, leb}
use psprism.Base.{◌==◌, if◌then◌else◌, Option, some, u32}
use psprism.Decoder.Instruction.{DecodedInstruction, is_valid}
use psprism.Decoder.Decode.{decode_allegrex}
use psprism.Cpu.State.{State, is_running, set_gpr}
use psprism.Cpu.Memory.{load32}
use psprism.Cpu.Execute.Control.{fail, branch, exec_regimm, exec_jump, is_nonpositive}
use psprism.Cpu.Execute.Control.{signed_immediate}
use psprism.Cpu.Execute.Special.{exec_special}
use psprism.Cpu.Execute.Special3.{exec_special2, exec_special3, exec_immediate}
use psprism.Cpu.Execute.Float.{FloatUnit, exec_cop1}
use psprism.Cpu.Execute.Transfer.{exec_transfer, ◌>>=◌}

-- The opcodes that go to `execute_vfpu`.
abbrev pub is_vfpu : ℕ → Bool
is_vfpu op =
    op == 0x12
    || op == 0x18
    || op == 0x19
    || op == 0x1b
    || op == 0x32
    || op == 0x34
    || op == 0x35
    || op == 0x36
    || op == 0x37
    || op == 0x3a
    || op == 0x3c
    || op == 0x3d
    || op == 0x3e
    || op == 0x3f

-- The branches on two registers.
unfoldable pub exec_branch : State → DecodedInstruction → ℕ → State
exec_branch s d current_pc =
    let rs = s.gpr d.rs in
    let rt = s.gpr d.rt in
    let take = branch s d current_pc in
    if d.op == 0x04
    then take (rs == rt) false
    else if d.op == 0x05
    then take (not (rs == rt)) false
    else if d.op == 0x06
    then take (is_nonpositive rs) false
    else if d.op == 0x07
    then take (not (is_nonpositive rs)) false
    else if d.op == 0x14
    then take (rs == rt) true
    else if d.op == 0x15
    then take (not (rs == rt)) true
    else if d.op == 0x16
    then take (is_nonpositive rs) true
    else take (not (is_nonpositive rs)) true

abbrev pub is_branch : ℕ → Bool
is_branch op = (leb 0x04 op && leb op 0x07) || (leb 0x14 op && leb op 0x17)

-- Register 0 is cleared, and a branch that was pending takes effect.
unfoldable pub retire : Bool → ℕ → State → State
retire apply_delayed_branch delayed_target s =
    let s' = set_gpr s 0 0 in
    if is_running s' && apply_delayed_branch then record s' { pc = delayed_target } else s'

module _ (unit : FloatUnit) (execute_vfpu : State → ℕ → ℕ → State) where
  -- The `switch` on the opcode.
  unfoldable pub execute : State → DecodedInstruction → ℕ → ℕ → Option State
  execute s d address current_pc =
      if d.op == 0x00
      then some (exec_special s d current_pc)
      else if d.op == 0x01
      then some (exec_regimm s d current_pc)
      else if d.op == 0x02 || d.op == 0x03
      then some (exec_jump s d current_pc)
      else if is_branch d.op
      then some (exec_branch s d current_pc)
      else if leb 0x08 d.op && leb d.op 0x0f
      then some (exec_immediate s d)
      else if d.op == 0x11
      then some (exec_cop1 unit s d current_pc)
      else if is_vfpu d.op
      then some (execute_vfpu s d.word current_pc)
      else if d.op == 0x1c
      then some (exec_special2 s d current_pc)
      else if d.op == 0x1f
      then some (exec_special3 s d current_pc)
      else exec_transfer s d address current_pc

  -- From the fetched word on.
  unfoldable pub interpret_word : State → ℕ → ℕ → Option State
  interpret_word s word current_pc =
      let d = decode_allegrex word in
      let address = u32 (s.gpr d.rs + signed_immediate d) in
      let s' : State = record s { branch_pending = false; pc = u32 (current_pc + 4) } in
      if is_valid d
      then (do
        s'' ← execute s' d address current_pc
        some (retire s.branch_pending s.branch_target s''))
      else some (fail s' d current_pc)

  -- The fetched word is executed if the fetch did not fault.
  unfoldable pub interpret_fetched : ℕ × State → ℕ → Option (Bool × State)
  interpret_fetched (word, s) current_pc =
      if is_running s
      then (interpret_word s word current_pc >>= λ s'. some (true, s'))
      else some (true, s)

  -- The Boolean is the result of the function.
  unfoldable pub interpret_allegrex : State → ℕ → Option (Bool × State)
  interpret_allegrex s current_pc =
      if not (bit_and current_pc 3 == 0)
      then some (false, s)
      else (load32 s current_pc >>= λ fetched. interpret_fetched fetched current_pc)

-- ===== src/Cpu/Laws/Support.antt =====
-- The interpreter implements what the decoder accepts.
use psprism.Base.{ℕ, ◌≡◌, ◌≢◌, arith, Bool}
use psprism.Base.{true, false, some, ◌⊎◌, ◌==◌}
use psprism.Base.{◌||◌, ltb}
use psprism.Decoder.Instruction.{DecodedInstruction}
use psprism.Decoder.Decode.{special_rest_name, special_name}
use Prim.Native.String.{String}
use psprism.Cpu.State.{State, unsupported_instruction}
use psprism.Cpu.Execute.Special.{exec_low, exec_high, exec_div, exec_divu}

-- The case did not end in `fail`, which alone writes this reason.
abbrev pub IsSupported : State → Type 0
IsSupported s = s.stop_reason ≢ unsupported_instruction

-- No branch was taken or made pending.
abbrev pub IsSequential : State → State → Type 0
IsSequential s s' = (s'.branch_pending ≡ s.branch_pending) × (s'.pc ≡ s.pc)

-- The functions that the two halves of the opcode 0 have a case for.
abbrev pub is_low : ℕ → Bool
is_low f =
    f == 0x00
    || f == 0x02
    || f == 0x03
    || f == 0x04
    || f == 0x06
    || f == 0x07
    || f == 0x08
    || f == 0x09
    || f == 0x0a
    || f == 0x0b
    || f == 0x0c
    || f == 0x0d
    || f == 0x0f
    || f == 0x10
    || f == 0x11
    || f == 0x12
    || f == 0x13
    || f == 0x16
    || f == 0x17

abbrev pub is_high : ℕ → Bool
is_high f =
    f == 0x18
    || f == 0x19
    || f == 0x1a
    || f == 0x1b
    || f == 0x1c
    || f == 0x1d
    || f == 0x2e
    || f == 0x2f
    || f == 0x20
    || f == 0x21
    || f == 0x22
    || f == 0x23
    || f == 0x24
    || f == 0x25
    || f == 0x26
    || f == 0x27
    || f == 0x2a
    || f == 0x2b
    || f == 0x2c
    || f == 0x2d

pub special_name-known :
    (rs shift f : ℕ) {name : String}
    → special_name rs shift f ≡ some name
    → (is_low f ≡ true × ltb f 0x18 ≡ true) ⊎ (is_high f ≡ true × ltb f 0x18 ≡ false)
unfolding special_name special_rest_name
special_name-known rs shift f h = ground arith

module _ (s : State) (d : DecodedInstruction) (current_pc : ℕ) (ok : IsSupported s) where
  exec_div_lem :
      (left right : ℕ)
      → ((exec_div s left right).stop_reason ≡ s.stop_reason)
        × IsSequential s (exec_div s left right)
  unfolding exec_div
  exec_div_lem left right = ground arith

  exec_divu_lem :
      (left right : ℕ)
      → ((exec_divu s left right).stop_reason ≡ s.stop_reason)
        × IsSequential s (exec_divu s left right)
  unfolding exec_divu
  exec_divu_lem left right = ground arith

  pub exec_high-IsSupported : is_high d.function ≡ true → IsSupported (exec_high s d current_pc)
  unfolding exec_high
  exec_high-IsSupported h =
      ground
        (arith, exec_div_lem (s.gpr d.rs) (s.gpr d.rt), exec_divu_lem (s.gpr d.rs) (s.gpr d.rt))

  pub exec_high-IsSequential : is_high d.function ≡ true → IsSequential s (exec_high s d current_pc)
  unfolding exec_high
  exec_high-IsSequential h =
      ground
        (arith, exec_div_lem (s.gpr d.rs) (s.gpr d.rt), exec_divu_lem (s.gpr d.rs) (s.gpr d.rt))

  pub exec_low-IsSupported : is_low d.function ≡ true → IsSupported (exec_low s d current_pc)
  unfolding exec_low
  exec_low-IsSupported h = ground arith

  pub exec_low-IsSequential :
      is_low d.function ≡ true
      → d.function ≢ 0x08
      → d.function ≢ 0x09
      → IsSequential s (exec_low s d current_pc)
  unfolding exec_low
  exec_low-IsSequential h ne8 ne9 = ground arith

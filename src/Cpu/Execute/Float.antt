-- ===== src/Cpu/Execute/Float.antt =====
-- interpreter.hpp: the opcode 0x11, and the floating-point helpers of runtime.hpp. A float is its
-- 32 bits; what the hardware does to them is a parameter.
use psprism.Base.{ℕ, ◌+◌, bit_and, bit_or, Bool, not, ◌&&◌}
use psprism.Base.{◌||◌, leb, ◌==◌, if◌then◌else◌, Option, none, some, u32, shl, shr}
use psprism.Decoder.Instruction.{DecodedInstruction}
use psprism.Cpu.State.{State, set_gpr, set_fpr}
use psprism.Cpu.Bitwise.{bit_not}
use psprism.Cpu.Execute.Control.{fail, branch}

-- The operators on `float`, and the functions of <cmath>, on bit patterns. `rounded` is the word of a
-- value rounded in a mode, where that is an int32_t.
pub record FloatUnit : Type 0 where
  pub add : ℕ → ℕ → ℕ
  pub subtract : ℕ → ℕ → ℕ
  pub multiply : ℕ → ℕ → ℕ
  pub divide : ℕ → ℕ → ℕ
  pub sqrt : ℕ → ℕ
  pub fabs : ℕ → ℕ
  pub negate : ℕ → ℕ
  pub round : ℕ → ℕ
  pub trunc : ℕ → ℕ
  pub rounded : ℕ → ℕ → Option ℕ
  pub of_s32 : ℕ → ℕ
  pub is_nan : ℕ → Bool
  pub less : ℕ → ℕ → Bool
  pub equal : ℕ → ℕ → Bool

abbrev pub condition_bit : ℕ → ℕ
condition_bit cc = if cc == 0 then 23 else 24 + bit_and cc 7

unfoldable pub fpu_condition : State → ℕ → Bool
fpu_condition s cc = not (bit_and s.fcr31 (u32 (shl 1 (condition_bit cc))) == 0)

unfoldable pub set_fpu_condition : State → ℕ → Bool → State
set_fpu_condition s cc value =
    let mask = u32 (shl 1 (condition_bit cc)) in
    record s { fcr31 = if value then bit_or s.fcr31 mask else bit_and s.fcr31 (bit_not mask) }

module _ (unit : FloatUnit) where
  unfoldable pub compare_f32 : State → ℕ → ℕ → ℕ → ℕ → State
  compare_f32 s cc left right condition =
      let unordered = unit.is_nan left || unit.is_nan right in
      let less = not unordered && unit.less left right in
      let equal = not unordered && unit.equal left right in
      set_fpu_condition s cc (
        (not (bit_and condition 4 == 0) && less)
        || (not (bit_and condition 2 == 0) && equal)
        || (not (bit_and condition 1 == 0) && unordered))

  unfoldable pub rounded_word : ℕ → ℕ → ℕ
  rounded_word value mode = elim (unit.rounded (bit_and mode 3) value) [
    | some word ↦ word
    | none ↦ 0x80000000
  ]

  -- The format 0x10: single precision.
  unfoldable pub exec_single : State → DecodedInstruction → ℕ → State
  exec_single s d current_pc =
      let fs = d.rd in
      let left = s.fpr fs in
      let right = s.fpr d.rt in
      let write = set_fpr s d.shift in
      if d.function == 0x00
      then write (unit.add left right)
      else if d.function == 0x01
      then write (unit.subtract left right)
      else if d.function == 0x02
      then write (unit.multiply left right)
      else if d.function == 0x03
      then write (unit.divide left right)
      else if d.function == 0x04
      then write (unit.sqrt left)
      else if d.function == 0x05
      then write (unit.fabs left)
      else if d.function == 0x06
      then write left
      else if d.function == 0x07
      then write (unit.negate left)
      else if d.function == 0x0c
      then write (unit.round left)
      else if d.function == 0x0d
      then write (unit.trunc left)
      else if d.function == 0x0e
      then write (rounded_word left 2)
      else if d.function == 0x0f
      then write (rounded_word left 3)
      else if d.function == 0x11
      then (let cc = bit_and (shr d.rt 2) 7 in
          let move_true = not (bit_and d.rt 1 == 0) in
          if fpu_condition s cc
          then (if move_true then write left else s)
          else (if move_true then s else write left))
      else if d.function == 0x20
      then write left
      else if d.function == 0x24
      then write (rounded_word left (bit_and s.fcr31 3))
      else if leb 0x30 d.function
      then compare_f32 s (bit_and (shr d.word 8) 7) left right (bit_and d.function 15)
      else fail s d current_pc

  unfoldable pub exec_cop1 : State → DecodedInstruction → ℕ → State
  exec_cop1 s d current_pc =
      let fmt = d.rs in
      let fs = d.rd in
      if fmt == 0x00
      then set_gpr s d.rt (s.fpr fs)
      else if fmt == 0x04
      then set_fpr s fs (s.gpr d.rt)
      else if fmt == 0x02
      then set_gpr s d.rt (if fs == 0 then 0x00003351 else if fs == 31 then s.fcr31 else 0)
      else if fmt == 0x06
      then (if fs == 31 then record s { fcr31 = s.gpr d.rt } else s)
      else if fmt == 0x08
      then (let cc = bit_and (shr d.word 18) 7 in
          let bit = if cc == 0 then 23 else 24 + cc in
          branch s d current_pc (bit_and (shr s.fcr31 bit) 1 == bit_and (shr d.word 16) 1)
            (not (bit_and (shr d.word 17) 1 == 0)))
      else if fmt == 0x10
      then exec_single s d current_pc
      else if fmt == 0x14 && d.function == 0x20
      then set_fpr s d.shift (unit.of_s32 (s.fpr fs))
      else fail s d current_pc

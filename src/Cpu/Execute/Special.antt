-- ===== src/Cpu/Execute/Special.antt =====
-- interpreter.hpp: the opcode 0, register to register.
use psprism.Base.{ℕ, ◌+◌, ◌-◌, ◌*◌, ◌/◌, ◌%◌, ◌^◌, bit_and, bit_or, bit_xor, true}
use psprism.Base.{◌&&◌, ltb, ◌==◌, if◌then◌else◌, u32, u64, shl, shr}
use psprism.Decoder.Instruction.{DecodedInstruction}
use psprism.Cpu.State.{State, StopReason, set_gpr}
use psprism.Cpu.Bitwise.{lt_s32, is_negative, sign_extend32, bit_not, arithmetic_shift_right}
use psprism.Cpu.Bitwise.{rotate_right, countl_zero, countl_one, quotient_s32, remainder_s32}
use psprism.Cpu.Execute.Control.{fail}

-- A 64-bit value to the HI / LO pair, and back.
abbrev pub set_hilo : State → ℕ → State
set_hilo s value = record s { lo = u32 value; hi = shr value 32 }

abbrev pub accumulator : State → ℕ
accumulator s = bit_or s.lo (shl s.hi 32)

unfoldable pub exec_div : State → ℕ → ℕ → State
exec_div s left right =
    if right == 0
    then record s { lo = if is_negative left then 1 else 0xffffffff; hi = left }
    else if left == 0x80000000 && right == 0xffffffff
    then record s { lo = left; hi = 0xffffffff }
    else record s { lo = quotient_s32 left right; hi = remainder_s32 left right }

unfoldable pub exec_divu : State → ℕ → ℕ → State
exec_divu s left right =
    if right == 0
    then record s { lo = if ltb 0xffff left then 0xffffffff else 0xffff; hi = left }
    else record s { lo = left / right; hi = left % right }

-- Shifts, jumps through a register, conditional moves, and the HI and LO registers.
unfoldable pub exec_low : State → DecodedInstruction → ℕ → State
exec_low s d current_pc =
    let rs = s.gpr d.rs in
    let rt = s.gpr d.rt in
    let write = set_gpr s d.rd in
    if d.function == 0x00
    then write (u32 (shl rt d.shift))
    else if d.function == 0x02
    then write (if d.rs == 1 then rotate_right rt d.shift else shr rt d.shift)
    else if d.function == 0x03
    then write (arithmetic_shift_right rt d.shift)
    else if d.function == 0x04
    then write (u32 (shl rt (bit_and rs 31)))
    else if d.function == 0x06
    then write (if d.shift == 1 then rotate_right rt rs else shr rt (bit_and rs 31))
    else if d.function == 0x07
    then write (arithmetic_shift_right rt rs)
    else if d.function == 0x08
    then record s { branch_pending = true; branch_target = rs }
    else if d.function == 0x09
    then (let s' = if d.rd == 0 then s else write (u32 (current_pc + 8)) in
        record s' { branch_pending = true; branch_target = rs })
    else if d.function == 0x0a
    then (if rt == 0 then write rs else s)
    else if d.function == 0x0b
    then (if rt == 0 then s else write rs)
    else if d.function == 0x0c
    then record s { stop_reason = StopReason.syscall }
    else if d.function == 0x0d
    then s
    else if d.function == 0x0f
    then s
    else if d.function == 0x10
    then write s.hi
    else if d.function == 0x11
    then record s { hi = rs }
    else if d.function == 0x12
    then write s.lo
    else if d.function == 0x13
    then record s { lo = rs }
    else if d.function == 0x16
    then write (countl_zero rs)
    else if d.function == 0x17
    then write (countl_one rs)
    else fail s d current_pc

-- Products, quotients, sums, bit operations and comparisons.
unfoldable pub exec_high : State → DecodedInstruction → ℕ → State
exec_high s d current_pc =
    let rs = s.gpr d.rs in
    let rt = s.gpr d.rt in
    let write = set_gpr s d.rd in
    if d.function == 0x18
    then set_hilo s (u64 (sign_extend32 rs * sign_extend32 rt))
    else if d.function == 0x19
    then set_hilo s (rs * rt)
    else if d.function == 0x1a
    then exec_div s rs rt
    else if d.function == 0x1b
    then exec_divu s rs rt
    else if d.function == 0x1c
    then set_hilo s (u64 (accumulator s + u64 (sign_extend32 rs * sign_extend32 rt)))
    else if d.function == 0x1d
    then set_hilo s (u64 (accumulator s + rs * rt))
    else if d.function == 0x2e
    then set_hilo s (u64 (accumulator s + 2 ^ 64 - u64 (sign_extend32 rs * sign_extend32 rt)))
    else if d.function == 0x2f
    then set_hilo s (u64 (accumulator s + 2 ^ 64 - rs * rt))
    else if d.function == 0x20
    then write (u32 (rs + rt))
    else if d.function == 0x21
    then write (u32 (rs + rt))
    else if d.function == 0x22
    then write (u32 (rs + 2 ^ 32 - rt))
    else if d.function == 0x23
    then write (u32 (rs + 2 ^ 32 - rt))
    else if d.function == 0x24
    then write (bit_and rs rt)
    else if d.function == 0x25
    then write (bit_or rs rt)
    else if d.function == 0x26
    then write (bit_xor rs rt)
    else if d.function == 0x27
    then write (bit_not (bit_or rs rt))
    else if d.function == 0x2a
    then write (if lt_s32 rs rt then 1 else 0)
    else if d.function == 0x2b
    then write (if ltb rs rt then 1 else 0)
    else if d.function == 0x2c
    then write (if lt_s32 rt rs then rs else rt)
    else if d.function == 0x2d
    then write (if lt_s32 rs rt then rs else rt)
    else fail s d current_pc

unfoldable pub exec_special : State → DecodedInstruction → ℕ → State
exec_special s d current_pc =
    if ltb d.function 0x18 then exec_low s d current_pc else exec_high s d current_pc

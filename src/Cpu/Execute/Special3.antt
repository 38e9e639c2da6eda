-- ===== src/Cpu/Execute/Special3.antt =====
-- interpreter.hpp: the opcodes 0x1c and 0x1f, and the immediate operands.
use psprism.Base.{ℕ, ◌+◌, ◌-◌, ◌^◌, bit_and, bit_or, bit_xor, ◌&&◌, ltb, ◌==◌}
use psprism.Base.{if◌then◌else◌, u8, u16, u32, shl, shr, sign_extend16}
use psprism.Decoder.Instruction.{DecodedInstruction}
use psprism.Cpu.State.{State, set_gpr}
use psprism.Cpu.Bitwise.{lt_s32, bit_not, countl_zero, countl_one, low_ones, reverse_bits}
use psprism.Cpu.Bitwise.{swap_halves, byte_swap, sign_extend8}
use psprism.Cpu.Execute.Control.{fail, immediate, signed_immediate}

unfoldable pub exec_special2 : State → DecodedInstruction → ℕ → State
exec_special2 s d current_pc =
    let rs = s.gpr d.rs in
    let rt = s.gpr d.rt in
    let write = set_gpr s d.rd in
    if d.function == 0x20
    then write (countl_zero rs)
    else if d.function == 0x21
    then write (countl_one rs)
    else if d.function == 0x2c
    then write (if lt_s32 rt rs then rs else rt)
    else if d.function == 0x2d
    then write (if lt_s32 rs rt then rs else rt)
    else fail s d current_pc

-- ext
abbrev pub extract_bits : ℕ → ℕ → ℕ → ℕ
extract_bits value width shift = bit_and (shr value shift) (low_ones width)

-- ins
abbrev pub insert_bits : ℕ → ℕ → ℕ → ℕ → ℕ
insert_bits target value width shift =
    let positioned = u32 (shl (low_ones width) shift) in
    bit_or (bit_and target (bit_not positioned)) (bit_and (u32 (shl value shift)) positioned)

unfoldable pub exec_special3 : State → DecodedInstruction → ℕ → State
exec_special3 s d current_pc =
    let rs = s.gpr d.rs in
    let rt = s.gpr d.rt in
    if d.function == 0x00
    then set_gpr s d.rt (extract_bits rs (d.rd + 1) d.shift)
    else if d.function == 0x04
    then set_gpr s d.rt (insert_bits rt rs (u32 (d.rd + 2 ^ 32 - d.shift + 1)) d.shift)
    else if d.function == 0x20 && d.shift == 0x14
    then set_gpr s d.rd (reverse_bits rt)
    else if d.function == 0x20 && d.shift == 0x02
    then set_gpr s d.rd (swap_halves rt)
    else if d.function == 0x20 && d.shift == 0x03
    then set_gpr s d.rd (byte_swap rt)
    else if d.function == 0x20 && d.shift == 0x10
    then set_gpr s d.rd (sign_extend8 (u8 rt))
    else if d.function == 0x20 && d.shift == 0x18
    then set_gpr s d.rd (sign_extend16 (u16 rt))
    else fail s d current_pc

-- The opcodes 8 to 15.
unfoldable pub exec_immediate : State → DecodedInstruction → State
exec_immediate s d =
    let rs = s.gpr d.rs in
    let write = set_gpr s d.rt in
    if d.op == 0x08
    then write (u32 (rs + signed_immediate d))
    else if d.op == 0x09
    then write (u32 (rs + signed_immediate d))
    else if d.op == 0x0a
    then write (if lt_s32 rs (signed_immediate d) then 1 else 0)
    else if d.op == 0x0b
    then write (if ltb rs (signed_immediate d) then 1 else 0)
    else if d.op == 0x0c
    then write (bit_and rs (immediate d))
    else if d.op == 0x0d
    then write (bit_or rs (immediate d))
    else if d.op == 0x0e
    then write (bit_xor rs (immediate d))
    else write (u32 (shl (immediate d) 16))

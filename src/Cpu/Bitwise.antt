-- ===== src/Cpu/Bitwise.antt =====
-- include/psprecomp/runtime.hpp and the standard library's bit counting: the word operations that the
-- interpreter calls. A signed word is its bit pattern.
use psprism.Base.{ℕ, zero, suc, ◌+◌, ◌-◌, ◌/◌, ◌%◌, ◌^◌, bit_and, bit_or, Bool, ltb, leb, ◌==◌}
use psprism.Base.{if◌then◌else◌, u32, shl, shr, not}

-- as_s32(a) < as_s32(b)
abbrev pub lt_s32 : ℕ → ℕ → Bool
lt_s32 a b = ltb (u32 (a + 2 ^ 31)) (u32 (b + 2 ^ 31))

abbrev pub is_negative : ℕ → Bool
is_negative a = leb (2 ^ 31) a

-- as_s32, widened to 64 bits.
abbrev pub sign_extend32 : ℕ → ℕ
sign_extend32 a = if ltb a (2 ^ 31) then a else a + (2 ^ 64 - 2 ^ 32)

-- The same for one byte and for a half word, to 32 bits.
abbrev pub sign_extend8 : ℕ → ℕ
sign_extend8 a = if ltb a 0x80 then a else a + 0xffffff00

abbrev pub bit_not : ℕ → ℕ
bit_not a = 0xffffffff - a

unfoldable pub arithmetic_shift_right : ℕ → ℕ → ℕ
arithmetic_shift_right value amount =
    let amount' = bit_and amount 31 in
    let shifted = shr value amount' in
    if amount' == 0
    then value
    else if bit_and value 0x80000000 == 0
    then shifted
    else bit_or shifted (u32 (shl 0xffffffff (32 - amount')))

unfoldable pub rotate_right : ℕ → ℕ → ℕ
rotate_right value amount =
    let amount' = bit_and amount 31 in
    if amount' == 0 then value else bit_or (shr value amount') (u32 (shl value (32 - amount')))

-- std::countl_zero on a word of `width` bits.
unfoldable pub leading_zeros : ℕ → ℕ → ℕ
leading_zeros zero value = 0
leading_zeros (suc width) value =
    let rest = leading_zeros width value in if ltb value (2 ^ width) then rest + 1 else 0

abbrev pub countl_zero : ℕ → ℕ
countl_zero = leading_zeros 32

abbrev pub countl_one : ℕ → ℕ
countl_one value = leading_zeros 32 (bit_not value)

unfoldable pub byte_swap : ℕ → ℕ
byte_swap value =
    bit_or
      (bit_or
        (bit_or (u32 (shl (bit_and value 0x000000ff) 24)) (u32 (shl (bit_and value 0x0000ff00) 8)))
        (shr (bit_and value 0x00ff0000) 8))
      (shr (bit_and value 0xff000000) 24)

-- wsbh
unfoldable pub swap_halves : ℕ → ℕ
swap_halves value =
    bit_or (shr (bit_and value 0xff00ff00) 8) (u32 (shl (bit_and value 0x00ff00ff) 8))

-- One line of `reverse_bits`.
abbrev swap_bits : ℕ → ℕ → ℕ → ℕ → ℕ
swap_bits low high k value = bit_or (u32 (shl (bit_and value low) k)) (shr (bit_and value high) k)

unfoldable pub reverse_bits : ℕ → ℕ
reverse_bits value =
    let v1 = swap_bits 0x55555555 0xaaaaaaaa 1 value in
    let v2 = swap_bits 0x33333333 0xcccccccc 2 v1 in
    let v3 = swap_bits 0x0f0f0f0f 0xf0f0f0f0 4 v2 in
    let v4 = swap_bits 0x00ff00ff 0xff00ff00 8 v3 in bit_or (u32 (shl v4 16)) (shr v4 16)

-- The magnitude of a signed word, and a word from a sign and a magnitude.
abbrev magnitude : ℕ → ℕ
magnitude a = if is_negative a then 2 ^ 32 - a else a

abbrev with_sign : Bool → ℕ → ℕ
with_sign negative m = if negative then u32 (2 ^ 32 - m) else m

-- Division of signed words, which C++ rounds towards zero; the remainder has the dividend's sign.
unfoldable pub quotient_s32 : ℕ → ℕ → ℕ
quotient_s32 left right =
    let q = magnitude left / magnitude right in
    if is_negative left
    then with_sign (not (is_negative right)) q
    else with_sign (is_negative right) q

unfoldable pub remainder_s32 : ℕ → ℕ → ℕ
remainder_s32 left right = with_sign (is_negative left) (magnitude left % magnitude right)

-- The bits that `ins` and `ext` keep: `width == 32 ? 0xffffffff : (1 << width) - 1`.
abbrev pub low_ones : ℕ → ℕ
low_ones width = if width == 32 then 0xffffffff else 2 ^ width - 1

-- ===== src/Decoder/Patterns.antt =====
-- The decoder's `switch` statements and the pattern tables name the same instructions.
use psprism.Base.{ℕ, ◌+◌, ◌*◌, ◌/◌, ◌%◌, ◌^◌, ◌<◌, ◌≡◌, refl, ◌∙◌, arith}
use psprism.Base.{bit_and, false, ◌&&◌, ◌==◌, Option, none, some}
use psprism.Base.{if◌then◌else◌, shr, inl, inr, Option-cases}
use psprism.Base.Bits.{bit_and_mask, bit_and_split, bit_and-zero, zero-bit_and}
use psprism.Decoder.Instruction.{DecodedInstruction, fields}
use psprism.Decoder.Instruction.{is_valid}
use psprism.Decoder.Tables.{find_pattern, special_patterns, special_rest, regimm_patterns}
use psprism.Decoder.Decode.{special_rest_name, special_name, decode_special, decode_regimm}
use psprism.Decoder.Decode.{decode_allegrex}
use psprism.Decoder.Vfpu.{vfpu_opcode_supported}
use Prim.Native.String.{String}

-- The name of a valid instruction.
abbrev pub valid_name : DecodedInstruction → Option String
valid_name d = if is_valid d then some d.name else none

special_rest_name-none : (function : ℕ) → function < 8 → special_rest_name function ≡ none
unfolding special_rest_name
special_rest_name-none function h = ground arith

-- A test of two fields at once is a test of each.
rs_test : (q f c k : ℕ) → f < 64 → k < 64 → (q * 2 ^ 21 + f == c * 2 ^ 21 + k) ≡ (q == c && f == k)
rs_test q f c k hf hk = ground arith

shift_test : (q f c k : ℕ) → f < 64 → k < 64 → (q * 64 + f == c * 64 + k) ≡ (q == c && f == k)
shift_test q f c k hf hk = ground arith

-- The order of the tests makes no difference.
special_cases :
    (rs shift f : ℕ)
    → special_name rs shift f ≡ (
        if rs == 1 && f == 2
        then some "rotr"
        else if shift == 1 && f == 6
        then some "rotrv"
        else if rs == 0 && f == 2
        then some "srl"
        else if shift == 0 && f == 6
        then some "srlv"
        else if rs == 0 && f == 0
        then some "sll"
        else if rs == 0 && f == 3
        then some "sra"
        else if shift == 0 && f == 4
        then some "sllv"
        else if shift == 0 && f == 7
        then some "srav"
        else if f == 8
        then some "jr"
        else if f == 9
        then some "jalr"
        else special_rest_name f)
unfolding special_name
special_cases rs shift f = ground (arith, special_rest_name-none f)

module _ (word : ℕ) (small : word < 2 ^ 26) where
  mask_function : bit_and word 0xfc00003f ≡ word % 64
  mask_function = ground (
    arith,
    bit_and_split 26 0 word 63 63 (omega arith) (omega arith),
    zero-bit_and 63,
    bit_and_mask 6 word,
  )

  mask_shift : bit_and word 0xfc0007ff ≡ word / 64 % 32 * 64 + word % 64
  mask_shift = ground (
    arith,
    bit_and_split 26 0 word 63 2047 (omega arith) (omega arith),
    zero-bit_and 63,
    bit_and_mask 11 word,
  )

  mask_rs : bit_and word 0xffe0003f ≡ word / 2 ^ 21 * 2 ^ 21 + word % 64
  mask_rs = ground (
    arith,
    bit_and_split 21 (word / 2 ^ 21) (word % 2 ^ 21) 2047 63 (omega arith) (omega arith),
    bit_and_mask 11 (word / 2 ^ 21),
    bit_and_mask 6 (word % 2 ^ 21),
  )

  find_rest : find_pattern word special_rest ≡ (
      if word % 64 == 0x08
      then some "jr"
      else if word % 64 == 0x09
      then some "jalr"
      else special_rest_name (word % 64))
  unfolding find_pattern special_rest special_rest_name
  find_rest = rw mask_function refl

  find_special :
      special_name (word / 2 ^ 21) (word / 64 % 32) (word % 64) ≡ find_pattern word special_patterns
  unfolding find_pattern special_patterns
  find_special =
      rw
        (
          mask_rs,
          mask_shift,
          find_rest,
          rs_test (word / 2 ^ 21) (word % 64) 1 2 (omega arith) (omega arith),
          rs_test (word / 2 ^ 21) (word % 64) 0 2 (omega arith) (omega arith),
          rs_test (word / 2 ^ 21) (word % 64) 0 0 (omega arith) (omega arith),
          rs_test (word / 2 ^ 21) (word % 64) 0 3 (omega arith) (omega arith),
          shift_test (word / 64 % 32) (word % 64) 1 6 (omega arith) (omega arith),
          shift_test (word / 64 % 32) (word % 64) 0 6 (omega arith) (omega arith),
          shift_test (word / 64 % 32) (word % 64) 0 4 (omega arith) (omega arith),
          shift_test (word / 64 % 32) (word % 64) 0 7 (omega arith) (omega arith),
        )
        (special_cases (word / 2 ^ 21) (word / 64 % 32) (word % 64))

-- No word of the opcodes 0 and 1 is a vector instruction.
vfpu_opcode_supported-low : (word : ℕ) → word / 2 ^ 26 < 2 → vfpu_opcode_supported word ≡ false
unfolding vfpu_opcode_supported
vfpu_opcode_supported-low word h = ground arith

decode-special : (word : ℕ) → shr word 26 ≡ 0 → decode_allegrex word ≡ decode_special (fields word)
unfolding decode_allegrex
decode-special word h = ground (arith, vfpu_opcode_supported-low word)

decode-regimm : (word : ℕ) → shr word 26 ≡ 1 → decode_allegrex word ≡ decode_regimm (fields word)
unfolding decode_allegrex
decode-regimm word h = ground (arith, vfpu_opcode_supported-low word)

decode_special-name :
    (d : DecodedInstruction)
    → is_valid d ≡ false
    → valid_name (decode_special d) ≡ special_name d.rs d.shift d.function
unfolding decode_special
decode_special-name d h = elim (Option-cases (special_name d.rs d.shift d.function)) [
  | inl e ↦ rw e (ground arith)
  | inr (name, e) ↦ rw (e, decode_special)
]

-- On every word of the opcode 0 the decoder's nested `switch` gives a valid instruction exactly where
-- some entry of `special_patterns` matches, and then under the name of the first such entry.
pub decode-special_patterns :
    (word : ℕ)
    → shr word 26 ≡ 0
    → valid_name (decode_allegrex word) ≡ find_pattern word special_patterns
decode-special_patterns word h = rw (decode-special word h) (
    decode_special-name (fields word) refl
    ∙ ground (
      arith,
      find_special word (omega arith),
      bit_and_mask 5 (word / 2 ^ 21),
      bit_and_mask 5 (word / 2 ^ 6),
      bit_and_mask 6 word,
    ))

mask_regimm :
    (word : ℕ) → shr word 26 ≡ 1 → bit_and word 0xfc1f0000 ≡ (1024 + word / 65536 % 32) * 65536
mask_regimm word h = ground (
  arith,
  bit_and_split 16 (word / 65536) (word % 65536) 0xfc1f 0 (omega arith) (omega arith),
  bit_and-zero (word % 65536),
  bit_and_split 5 (word / 65536 / 32) (word / 65536 % 32) 0x7e0 31 (omega arith) (omega arith),
  bit_and_mask 5 (word / 65536 % 32),
  bit_and_split 5 1 (word / 65536 / 32 % 32) 63 0 (omega arith) (omega arith),
  bit_and-zero (word / 65536 / 32 % 32),
)

-- On every word of the opcode 1 the decoder's nested `switch` gives a valid instruction exactly
-- where some entry of `regimm_patterns` matches, and then under the name of the first such entry.
pub decode-regimm_patterns :
    (word : ℕ)
    → shr word 26 ≡ 1
    → valid_name (decode_allegrex word) ≡ find_pattern word regimm_patterns
unfolding decode_regimm find_pattern regimm_patterns
decode-regimm_patterns word h =
    rw (decode-regimm word h, mask_regimm word h) (ground (arith, bit_and_mask 5 (word / 65536)))

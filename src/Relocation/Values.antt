-- ===== src/Relocation/Values.antt =====
-- What the relocated instruction fields stand for.
use psprism.Base.{ℕ, ◌+◌, ◌*◌, ◌/◌, ◌%◌, ◌^◌, ◌≡◌, arith, IsU32, u32}
use psprism.Base.{sign_extend16}
use psprism.Base.Bits.{bit_and_mask, bit_and_field, bit_or_disjoint}
use psprism.Relocation.Apply.{relocate_26, relocate_hi16, relocate_lo16}

relocate_hi16_fields :
    (word low to : ℕ)
    → IsU32 word
    → relocate_hi16 word low to
      ≡ word / 65536 * 65536
        + u32 (u32 (u32 (u32 (word % 65536 * 65536) + sign_extend16 (low % 65536)) + to) + 0x8000)
          / 65536
unfolding relocate_hi16
relocate_hi16_fields word low to hw = ground (
  arith,
  bit_and_mask 16 word,
  bit_and_mask 16 low,
  bit_and_field 16 16 word,
  bit_or_disjoint 16 (word / 65536 * 65536)
      (u32 (u32 (u32 (u32 (word % 65536 * 65536) + sign_extend16 (low % 65536)) + to) + 0x8000)
        / 65536)
      (omega arith) (omega arith),
)

relocate_lo16_fields :
    (word to : ℕ)
    → IsU32 word
    → relocate_lo16 word to ≡ word / 65536 * 65536 + u32 (sign_extend16 (word % 65536) + to) % 65536
unfolding relocate_lo16
relocate_lo16_fields word to hw = ground (
  arith,
  bit_and_mask 16 word,
  bit_and_mask 16 (u32 (sign_extend16 (word % 65536) + to)),
  bit_and_field 16 16 word,
  bit_or_disjoint 16 (word / 65536 * 65536) (u32 (sign_extend16 (word % 65536) + to) % 65536)
      (omega arith) (omega arith),
)

-- The address that a LUI / ADDIU pair computes from its two immediates.
abbrev pub pair_address : ℕ → ℕ → ℕ
pair_address high low = u32 (high % 65536 * 65536 + sign_extend16 (low % 65536))

-- Relocating a HI16 word and its LO16 word moves the address that the pair computes by exactly the
-- relocation base, modulo 2 ^ 32, and leaves the opcode halves of both words alone.
pub relocate_pair :
    (high low to : ℕ)
    → IsU32 high
    → IsU32 low
    → IsU32 to
    → (pair_address (relocate_hi16 high low to) (relocate_lo16 low to)
        ≡ u32 (pair_address high low + to))
      × (relocate_hi16 high low to / 65536 ≡ high / 65536)
      × (relocate_lo16 low to / 65536 ≡ low / 65536)
relocate_pair high low to hh hl ht =
    ground (arith, relocate_hi16_fields high low to hh, relocate_lo16_fields low to hl)

-- Relocating a jump keeps its opcode, and moves its 26-bit target field by the base in words.
pub relocate_26_lem :
    (word to : ℕ)
    → IsU32 word
    → IsU32 to
    → (relocate_26 word to / 2 ^ 26 ≡ word / 2 ^ 26)
      × (relocate_26 word to % 2 ^ 26 ≡ (word % 2 ^ 26 + to / 4) % 2 ^ 26)
unfolding relocate_26
relocate_26_lem word to hw ht = ground (
  arith,
  bit_and_mask 26 word,
  bit_and_mask 26 (u32 (word % 2 ^ 26 + to / 4)),
  bit_and_field 26 6 word,
  bit_or_disjoint 26 (word / 2 ^ 26 * 2 ^ 26) (u32 (word % 2 ^ 26 + to / 4) % 2 ^ 26) (omega arith)
      (omega arith),
)

-- ===== src/Decoder/Flags.antt =====
-- The flags that the translator's control-flow analysis reads.
use psprism.Base.{ℕ, ◌≡◌, refl, arith, true}
use psprism.Base.{Option-cases, Bool-cases, inl, inr, ◌⊎◌, ◌==◌}
use psprism.Base.{shr}
use psprism.Decoder.Instruction.{DecodedInstruction, fields}
use psprism.Decoder.Instruction.{is_valid, has_flag}
use psprism.Decoder.InstructionFlag.{delayed_branch}
use psprism.Decoder.Decode.{special_name, special_flags, decode_special, decode_regimm, decode_cop1}
use psprism.Decoder.Vfpu.{vfpu_opcode_supported}
use psprism.Decoder.Decode.{decode_primary, decode_vfpu, decode_allegrex}

-- Flags come with the delayed-branch flag, and on valid instructions only.
abbrev pub IsFlagged : DecodedInstruction → Type 0
IsFlagged d =
    ((d.flags ≡ 0) ⊎ (has_flag d delayed_branch ≡ true)) × ((d.flags ≡ 0) ⊎ (is_valid d ≡ true))

module _ (d : DecodedInstruction) (none_yet : d.flags ≡ 0) where
  decode_special-IsFlagged : IsFlagged (decode_special d)
  unfolding decode_special
  decode_special-IsFlagged = elim (Option-cases (special_name d.rs d.shift d.function)) [
    | inl e ↦ rw (e, decode_special) (inl none_yet, inl none_yet)
    | inr (name, e) ↦ rw (e, decode_special) (unfold special_flags in ground arith, inr refl)
  ]

  decode_regimm-IsFlagged : IsFlagged (decode_regimm d)
  unfolding decode_regimm
  decode_regimm-IsFlagged = ground arith

  decode_cop1-IsFlagged : IsFlagged (decode_cop1 d)
  unfolding decode_cop1
  decode_cop1-IsFlagged = ground arith

  decode_primary-IsFlagged : IsFlagged (decode_primary d)
  unfolding decode_primary
  decode_primary-IsFlagged = ground arith

  decode_vfpu-IsFlagged : IsFlagged (decode_vfpu d)
  unfolding decode_vfpu
  decode_vfpu-IsFlagged = ground (arith, none_yet)

-- For every word: a decoded instruction with any flag set has the delayed-branch flag set, and an
-- invalid instruction has no flag set.
pub decode_allegrex-IsFlagged : (word : ℕ) → IsFlagged (decode_allegrex word)
unfolding decode_allegrex
decode_allegrex-IsFlagged word = elim (Bool-cases (vfpu_opcode_supported word)) [
  | inl e ↦ rw e (decode_vfpu-IsFlagged (fields word) refl)
  | inr e ↦ elim (Bool-cases (shr word 26 == 0)) [
    | inl f ↦ rw (e, f) (decode_special-IsFlagged (fields word) refl)
    | inr f ↦ elim (Bool-cases (shr word 26 == 1)) [
      | inl g ↦ rw (e, f, g) (decode_regimm-IsFlagged (fields word) refl)
      | inr g ↦ rw (e, f, g) (decode_primary-IsFlagged (fields word) refl)
    ]
  ]
]

-- ===== src/Analysis/Agreement.antt =====
-- The analysis and the interpreter agree on where a branch goes: direct_control_target of
-- src/emitter/analysis.cpp against the pending target of include/psprecomp/interpreter.hpp.
use psprism.Base.{ap, ℕ, ◌+◌, ◌-◌, ◌^◌, ◌≡◌, refl, sym, subst, ◌∙◌, arith, bit_and}
use psprism.Base.{
  bit_or, Bool, true, false, ◌&&◌, ◌||◌, ◌==◌, if◌then◌else◌, Option, none, some, inl, inr,
}
use psprism.Base.{u32, IsU32, shl, shr, Bool-cases}
use psprism.Base.Bits.{bit_and_mask, bit_and_field, bit_or_disjoint}
use psprism.Decoder.Instruction.{DecodedInstruction, fields, is_valid, has_flag}
use psprism.Decoder.InstructionFlag.{delayed_branch}
use psprism.Decoder.Decode.{decode_special, decode_regimm, decode_primary, decode_allegrex}
use psprism.Decoder.Vfpu.{vfpu_opcode_supported}
use psprism.Cpu.State.{State}
use psprism.Cpu.Execute.Control.{fail}
use psprism.Cpu.Execute.Float.{FloatUnit}
use psprism.Cpu.Execute.Interpret.{is_branch, retire, interpret_word}
use psprism.Cpu.Laws.Step.{interpret_word-valid, interpret_word-invalid, entered, effective_address}
use psprism.Analysis.Text.{starts_delayed_branch}
use psprism.Analysis.Control.{displacement, direct_control_target}
use psprism.Analysis.Targets.{
  branch_address, jump_address, is_relative, execute-jump, execute-relative,
}

-- Decoding keeps the word, the opcode and the format.
abbrev Keeps : DecodedInstruction → DecodedInstruction → Type 0
Keeps d d' = (d'.word ≡ d.word) × (d'.op ≡ d.op) × (d'.rs ≡ d.rs)

module _ (d : DecodedInstruction) where
  decode_special-Keeps : Keeps d (decode_special d)
  unfolding decode_special
  decode_special-Keeps = ground arith

  decode_regimm-Keeps : Keeps d (decode_regimm d)
  unfolding decode_regimm
  decode_regimm-Keeps = ground arith

  decode_primary-Keeps : Keeps d (decode_primary d)
  unfolding decode_primary
  decode_primary-Keeps = ground arith

  decode_primary-flagged :
      d.flags ≡ 0
      → has_flag (decode_primary d) delayed_branch ≡ true
      → (d.op == 0x02 || d.op == 0x03 || is_branch d.op || (d.op == 0x11 && d.rs == 0x08)) ≡ true
  unfolding decode_primary
  decode_primary-flagged plain h = ground arith

-- A delayed branch outside the vector unit is a register jump, a jump or a relative branch.
abbrev IsKnown : ℕ → DecodedInstruction → Type 0
IsKnown word d =
    (d.word ≡ word)
    × (d.op ≡ shr word 26)
    × ((has_flag d delayed_branch ≡ true)
        → (d.op == 0x00 || d.op == 0x02 || d.op == 0x03 || is_relative d) ≡ true)

decode_allegrex-IsKnown :
    (word : ℕ) → vfpu_opcode_supported word ≡ false → IsKnown word (decode_allegrex word)
unfolding decode_allegrex
decode_allegrex-IsKnown word scalar =
    let d = fields word in
    elim (Bool-cases (shr word 26 == 0)) [
      | inl e ↦
          let (w, op, rs) = decode_special-Keeps d in
          subst (IsKnown word) {x = decode_special d} {y = decode_allegrex word}
            (sym (rw (scalar, e, decode_allegrex) refl)) (w, op, λ h. ground (arith, e, op))
      | inr e ↦ elim (Bool-cases (shr word 26 == 1)) [
        | inl f ↦
            let (w, op, rs) = decode_regimm-Keeps d in
            subst (IsKnown word) {x = decode_regimm d} {y = decode_allegrex word}
              (sym (rw (scalar, e, f, decode_allegrex) refl)) (w, op, λ h. ground (arith, f, op))
        | inr f ↦
            let (w, op, rs) = decode_primary-Keeps d in
            subst (IsKnown word) {x = decode_primary d} {y = decode_allegrex word}
              (sym (rw (scalar, e, f, decode_allegrex) refl))
              (w, op, λ h. ground (arith, op, rs, decode_primary-flagged d refl h))
      ]
    ]

-- Without a relocation and without a preferred base, the direct target is the address above.
abbrev no_bases : ℕ → Option ℕ
no_bases at = none

displacement_lem : (pc word : ℕ) → u32 (u32 (pc + 4) + displacement word) ≡ branch_address pc word
displacement_lem pc word = rw (bit_and_mask 16 word) refl

jump_lem :
    (pc word : ℕ)
    → IsU32 pc
    → u32 (
        bit_or (bit_and (u32 (u32 (pc + 0) + 4)) 0xf0000000) (u32 (shl (bit_and word 0x03ffffff) 2))
        + 2 ^ 32
        - 0)
      ≡ jump_address pc word
jump_lem pc word fits =
    let high = u32 (pc + 4) in
    let low = u32 (shl (bit_and word 0x03ffffff) 2) in
    let field = bit_and_field 28 4 high in
    let mask = bit_and_mask 26 word in
    let sum =
      bit_or_disjoint 28 (bit_and high 0xf0000000) low (omega (arith, field))
        (omega (arith, mask)) in
    subst
      (λ p. u32 (bit_or (bit_and (u32 (p + 4)) 0xf0000000) low + 2 ^ 32 - 0) ≡ jump_address pc word)
      {x = pc} {y = u32 (pc + 0)} (omega arith) (omega (arith, field, mask, sum))

nested :
    (b c d : Bool) (x y t : ℕ)
    → (if b then (if c then none else if d then some x else some y) else none) ≡ some t
    → (b ≡ true) × (c ≡ false) × (t ≡ (if d then x else y))
nested true true d x y t h = absurd cc
nested true false true x y t h = (refl, refl, cc)
nested true false false x y t h = (refl, refl, cc)
nested false c d x y t h = absurd cc

abbrev is_jump : ℕ → Bool
is_jump word = shr word 26 == 0x02 || shr word 26 == 0x03

direct_control_target-some :
    (pc word t : ℕ)
    → IsU32 pc
    → direct_control_target pc word no_bases 0 ≡ some t
    → (starts_delayed_branch word ≡ true)
      × ((shr word 26 == 0) ≡ false)
      × (t ≡ (if is_jump word then jump_address pc word else branch_address pc word))
unfolding direct_control_target
direct_control_target-some pc word t fits h =
    let absolute_target =
      bit_or (bit_and (u32 (u32 (pc + 0) + 4)) 0xf0000000)
        (u32 (shl (bit_and word 0x03ffffff) 2)) in
    let (branches, direct, same) =
      nested (starts_delayed_branch word) (shr word 26 == 0) (is_jump word)
        (u32 (absolute_target + 2 ^ 32 - 0)) (u32 (u32 (pc + 4) + displacement word)) t h in
    (
      branches,
      direct,
      same
          ∙ ap (λ x. if is_jump word then x else u32 (u32 (pc + 4) + displacement word))
              (jump_lem pc word fits)
          ∙ ap (λ x. if is_jump word then jump_address pc word else x) (displacement_lem pc word),
    )

retire-pending :
    (apply : Bool) (target : ℕ) (s : State)
    → ((retire apply target s).branch_pending ≡ s.branch_pending)
      × ((retire apply target s).branch_target ≡ s.branch_target)
unfolding retire
retire-pending apply target s = ground arith

-- For a word outside the vector unit at a 32-bit address, in a module that is not relocated and has
-- the preferred base 0: if the interpreter, from whatever state, leaves a branch pending, and the
-- analysis gives the word a direct target, then the pending branch goes to that target.
pub direct_control_target-interpret_word :
    (unit : FloatUnit) (execute_vfpu : State → ℕ → ℕ → State) (s : State) (pc word t : ℕ)
    {s' : State}
    → IsU32 pc
    → vfpu_opcode_supported word ≡ false
    → direct_control_target pc word no_bases 0 ≡ some t
    → interpret_word unit execute_vfpu s word pc ≡ some s'
    → s'.branch_pending ≡ true
    → s'.branch_target ≡ t
unfolding fail starts_delayed_branch
direct_control_target-interpret_word unit execute_vfpu s pc word t {s' = s'} fits scalar h runs
      pending =
    let d = decode_allegrex word in
    let (branches, direct, same) = direct_control_target-some pc word t fits h in
    let (w, op, known) = decode_allegrex-IsKnown word scalar in
    elim (Bool-cases (is_valid d)) [
      | inr invalid ↦ absurd (
          ground (arith, pending, interpret_word-invalid unit execute_vfpu s word pc invalid, runs))
      | inl valid ↦
          let (s'', e, retired) = interpret_word-valid unit execute_vfpu s word pc valid runs in
          let from = entered unit execute_vfpu s word pc in
          let address = effective_address unit execute_vfpu s word pc in
          let (same_pending, same_target) = retire-pending s.branch_pending s.branch_target s'' in
          let here : s''.branch_pending ≡ true =
            sym same_pending ∙ sym (ap (λ (x : State). x.branch_pending) retired) ∙ pending in
          let target : s'.branch_target ≡ s''.branch_target =
            ap (λ (x : State). x.branch_target) retired ∙ same_target in
          elim (Bool-cases (is_jump word)) [
            | inl f ↦
                target
                ∙ execute-jump from d pc refl unit execute_vfpu address (ground (arith, f, op)) e
                    here
                ∙ ap (jump_address pc) w
                ∙ sym (same ∙ rw f refl)
            | inr f ↦
                target
                ∙ execute-relative from d pc refl unit execute_vfpu address
                    (ground (arith, f, op, direct, known branches)) e here
                ∙ ap (branch_address pc) w
                ∙ sym (same ∙ rw f refl)
          ]
    ]

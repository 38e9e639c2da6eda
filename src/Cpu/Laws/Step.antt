-- ===== src/Cpu/Laws/Step.antt =====
-- interpret_allegrex: which words it executes, where control goes, and register 0.
use psprism.Base.{
  some_lem, none_lem, ℕ, ◌+◌, ◌≡◌, ◌≢◌, ◌↔◌, refl, subst, sym, ◌∙◌, arith, Bool, bit_and,
}
use psprism.Base.{true, false, Option, none, some, Option-cases, Bool-cases, inl, inr, ◌&&◌}
use psprism.Base.{if◌then◌else◌, u32, ◌==◌}
use psprism.Decoder.Instruction.{is_valid}
use psprism.Decoder.Decode.{decode_allegrex}
use psprism.Decoder.Vfpu.{vfpu_opcode_supported}
use psprism.Cpu.State.{State, is_running, unsupported_instruction}
use psprism.Cpu.Memory.{load, load32, note_memory_fault}
use psprism.Cpu.Execute.Control.{fail, signed_immediate}
use psprism.Cpu.Execute.Float.{FloatUnit}
use psprism.Cpu.Execute.Interpret.{
  execute, retire, interpret_word, interpret_fetched, interpret_allegrex,
}
use psprism.Cpu.Laws.Support.{IsSupported}
use psprism.Cpu.Laws.Executed.{execute-IsExecuted}

retire-stop_reason :
    (apply : Bool) (target : ℕ) (s : State) → (retire apply target s).stop_reason ≡ s.stop_reason
unfolding retire
retire-stop_reason apply target s = ground arith

retire-gpr : (apply : Bool) (target : ℕ) (s : State) → (retire apply target s).gpr 0 ≡ 0
unfolding retire
retire-gpr apply target s = ground arith

module _ (unit : FloatUnit) (execute_vfpu : State → ℕ → ℕ → State) (s : State)
    (word current_pc : ℕ) where
  -- The state that the `switch` starts from.
  abbrev pub entered : State
  entered = record s { branch_pending = false; pc = u32 (current_pc + 4) }

  abbrev pub effective_address : ℕ
  effective_address =
      u32 (s.gpr (decode_allegrex word).rs + signed_immediate (decode_allegrex word))

  -- A valid word goes through the `switch` and retires.
  pub interpret_word-valid :
      {s' : State}
      → is_valid (decode_allegrex word) ≡ true
      → interpret_word unit execute_vfpu s word current_pc ≡ some s'
      → (s'' : State) × (execute unit execute_vfpu entered
            (decode_allegrex word)
            effective_address
            current_pc
          ≡ some s'')
        × (s' ≡ retire s.branch_pending s.branch_target s'')
  unfolding interpret_word
  interpret_word-valid valid h =
      elim (Option-cases
        (execute unit execute_vfpu entered (decode_allegrex word) effective_address current_pc)) [
          | inl e ↦ absurd (none_lem (sym (rw (valid, interpret_word) (rw e refl)) ∙ h))
          | inr (s'', e) ↦
              (s'', e, sym (some_lem (sym (rw (valid, interpret_word) (rw e refl)) ∙ h)))
        ]

  pub interpret_word-invalid :
      is_valid (decode_allegrex word) ≡ false
      → interpret_word unit execute_vfpu s word current_pc
        ≡ some (fail entered (decode_allegrex word) current_pc)
  unfolding interpret_word
  interpret_word-invalid h = rw (h, interpret_word) refl

  module _ {s' : State} (ok : IsSupported s) (scalar : vfpu_opcode_supported word ≡ false)
      (runs : interpret_word unit execute_vfpu s word current_pc ≡ some s') where
    -- Where the state before is not stopped as unsupported, a word outside the vector unit is stopped
    -- as unsupported exactly if it does not decode: every other instruction that the decoder knows
    -- has a case in the interpreter.
    pub interpret_word-unsupported :
        (s'.stop_reason ≡ unsupported_instruction) ↔ (is_valid (decode_allegrex word) ≡ false)
    unfolding fail
    interpret_word-unsupported = elim (Bool-cases (is_valid (decode_allegrex word))) [
      | inl valid ↦
          let (s'', e, same) = interpret_word-valid valid runs in
          let executed =
            execute-IsExecuted unit execute_vfpu entered word effective_address current_pc ok scalar
              valid e in
          (
            λ bad. absurd (
                executed.0 (
                  sym (
                    subst (λ t. t.stop_reason ≡ s''.stop_reason) (sym same)
                      (retire-stop_reason s.branch_pending s.branch_target s''))
                  ∙ bad)),
            λ no. absurd (ground (arith, valid, no)),
          )
      | inr invalid ↦ (
        λ bad. invalid,
        λ no.
            subst (λ t. t.stop_reason ≡ unsupported_instruction)
              (some_lem (sym (interpret_word-invalid invalid) ∙ runs)) refl,
      )
    ]

    -- A valid word outside the vector unit that decodes without a flag takes no branch and makes none
    -- pending, in a state that is not stopped as unsupported: if a branch was pending and execution
    -- goes on, it takes effect now, else control is at the next word.
    pub interpret_word-pc :
        is_valid (decode_allegrex word) ≡ true
        → (decode_allegrex word).flags ≡ 0
        → (s'.branch_pending ≡ false)
          × (s'.pc ≡ (
              if is_running s' && s.branch_pending then s.branch_target else u32 (current_pc + 4)))
    unfolding retire
    interpret_word-pc valid plain =
        let (s'', e, same) = interpret_word-valid valid runs in
        let executed =
          execute-IsExecuted unit execute_vfpu entered word effective_address current_pc ok scalar
            valid e in
        let (pending, pc) = executed.1 plain in rw same (ground (arith, pending, pc))

pair_lem :
    {a b : Bool} {s s' : State}
    → ◌≡◌ {A = Option (Bool × State)} (some (a, s)) (some (b, s'))
    → s ≡ s'
pair_lem h = cc

no_pair_lem : {b : Bool} {s : State} → ◌≢◌ {A = Option (Bool × State)} none (some (b, s))
no_pair_lem h = cc

load-gpr :
    (width : ℕ) (s : State) (address value : ℕ) {s' : State}
    → load width s address ≡ some (value, s')
    → s'.gpr 0 ≡ s.gpr 0
unfolding load note_memory_fault
load-gpr width s address value h = ground arith

module _ (unit : FloatUnit) (execute_vfpu : State → ℕ → ℕ → State) (current_pc : ℕ) where
  interpret_word-gpr :
      (s : State) (word : ℕ) {s' : State}
      → s.gpr 0 ≡ 0
      → interpret_word unit execute_vfpu s word current_pc ≡ some s'
      → s'.gpr 0 ≡ 0
  unfolding retire fail
  interpret_word-gpr s word {s' = s'} zero runs =
      elim (Bool-cases (is_valid (decode_allegrex word))) [
        | inl valid ↦
            let (s'', e, same) =
              interpret_word-valid unit execute_vfpu s word current_pc valid runs in
            subst (λ t. t.gpr 0 ≡ 0) (sym same) (retire-gpr s.branch_pending s.branch_target s'')
        | inr invalid ↦
            subst (λ t. t.gpr 0 ≡ 0)
              (some_lem
                (sym (interpret_word-invalid unit execute_vfpu s word current_pc invalid) ∙ runs))
              zero
      ]

  interpret_fetched-gpr :
      (word : ℕ) (s : State) {r : Bool} {s' : State}
      → s.gpr 0 ≡ 0
      → interpret_fetched unit execute_vfpu (word, s) current_pc ≡ some (r, s')
      → s'.gpr 0 ≡ 0
  unfolding interpret_fetched
  interpret_fetched-gpr word s {r = r} {s' = s'} zero h = elim (Bool-cases (is_running s)) [
    | inl e ↦ elim (Option-cases (interpret_word unit execute_vfpu s word current_pc)) [
      | inl f ↦ absurd (no_pair_lem (sym (rw (e, interpret_fetched) (rw f refl)) ∙ h))
      | inr (s1, f) ↦
          subst (λ t. t.gpr 0 ≡ 0) {x = s1}
            (pair_lem {a = true} (sym (rw (e, interpret_fetched) (rw f refl)) ∙ h))
            (interpret_word-gpr s word zero f)
    ]
    | inr e ↦
        subst (λ t. t.gpr 0 ≡ 0) {x = s}
          (pair_lem {a = true} (sym (rw (e, interpret_fetched) refl) ∙ h)) zero
  ]

  -- Register 0 stays 0, whatever word is fetched and whether or not it is executed.
  pub interpret_allegrex-gpr :
      (s : State) {r : Bool} {s' : State}
      → s.gpr 0 ≡ 0
      → interpret_allegrex unit execute_vfpu s current_pc ≡ some (r, s')
      → s'.gpr 0 ≡ 0
  unfolding interpret_allegrex
  interpret_allegrex-gpr s zero h = elim (Bool-cases (bit_and current_pc 3 == 0)) [
    | inl e ↦ elim (Option-cases (load32 s current_pc)) [
      | inl f ↦ absurd (no_pair_lem (sym (rw (e, interpret_allegrex) (rw f refl)) ∙ h))
      | inr ((word, s1), f) ↦
          interpret_fetched-gpr word s1 (load-gpr 4 s current_pc word f ∙ zero)
            (sym (rw (e, interpret_allegrex) (rw f refl)) ∙ h)
    ]
    | inr e ↦
        subst (λ t. t.gpr 0 ≡ 0) {x = s}
          (pair_lem {a = false} (sym (rw (e, interpret_allegrex) refl) ∙ h)) zero
  ]

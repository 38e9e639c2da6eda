-- ===== src/Cpu/Laws/Executed.antt =====
-- One decoded instruction, through the `switch` on its opcode.
use psprism.Base.{some_lem, ℕ, ◌≡◌, refl, subst, sym, ◌∙◌, arith, Bool}
use psprism.Base.{true, false, Option, some, Option-cases, Bool-cases, inl, inr, ◌==◌}
use psprism.Base.{◌&&◌, ◌||◌, if◌then◌else◌, shr, leb}
use psprism.Decoder.Instruction.{DecodedInstruction, is_valid, fields, as_native}
use psprism.Decoder.Decode.{special_name, special_flags, decode_special, decode_regimm}
use psprism.Decoder.Decode.{decode_cop1, decode_primary, decode_allegrex}
use psprism.Decoder.Vfpu.{vfpu_opcode_supported}
use psprism.Cpu.State.{State}
use psprism.Cpu.Execute.Control.{exec_regimm, exec_jump}
use psprism.Cpu.Execute.Special.{exec_special}
use psprism.Cpu.Execute.Special3.{exec_special2, exec_special3, exec_immediate}
use psprism.Cpu.Execute.Float.{FloatUnit, exec_cop1}
use psprism.Cpu.Execute.Interpret.{exec_branch, is_branch, is_vfpu, execute}
use psprism.Cpu.Laws.Support.{IsSupported, special_name-known}
use psprism.Cpu.Laws.Groups.{
  IsExecuted, exec_special-known, exec_branch-IsSupported, exec_jump-IsSupported,
}
use psprism.Cpu.Laws.Groups.{
  exec_immediate-IsExecuted, exec_special2-IsExecuted, exec_special3-IsExecuted,
}
use psprism.Cpu.Laws.Groups.{
  exec_regimm-IsSupported, decode_regimm-valid, exec_cop1-IsExecuted, exec_cop1-branch,
}
use psprism.Cpu.Laws.Groups.{decode_cop1-valid}
use psprism.Cpu.Laws.Transfers.{exec_transfer-IsPlain}
use psprism.Cpu.Laws.Flow.{
  decode_primary-op, primary_flags, primary_low, primary_cop1, primary_special2,
}
use psprism.Cpu.Laws.Flow.{
  primary_special3, primary_vfpu, primary_transfer, primary_high, primary_middle,
}

case :
    (b : Bool) (d : DecodedInstruction) (s : State) {x y : Option State} {s' : State}
    → (b ≡ true → x ≡ some s' → IsExecuted d s s')
    → (b ≡ false → y ≡ some s' → IsExecuted d s s')
    → (if b then x else y) ≡ some s'
    → IsExecuted d s s'
case true d s f g h = f refl h
case false d s f g h = g refl h

decode_cop1-rs : (d : DecodedInstruction) → (decode_cop1 d).rs ≡ d.rs
unfolding decode_cop1
decode_cop1-rs d = ground arith

decode_cop1-function : (d : DecodedInstruction) → (decode_cop1 d).function ≡ d.function
unfolding decode_cop1
decode_cop1-function d = ground arith

decode_special-op : (d : DecodedInstruction) → (decode_special d).op ≡ d.op
unfolding decode_special
decode_special-op d = ground arith

decode_regimm-op : (d : DecodedInstruction) → (decode_regimm d).op ≡ d.op
unfolding decode_regimm
decode_regimm-op d = ground arith

module _ (s : State) (d : DecodedInstruction) (current_pc : ℕ) (ok : IsSupported s) where
  special-IsExecuted :
      d.op ≡ 0
      → is_valid d ≡ false
      → is_valid (decode_special d) ≡ true
      → IsExecuted (decode_special d) s (exec_special s (decode_special d) current_pc)
  unfolding decode_special
  special-IsExecuted zero fresh valid = elim (Option-cases (special_name d.rs d.shift d.function)) [
    | inl e ↦ absurd (ground (arith, e, valid, fresh))
    | inr (name, e) ↦
        rw (e, decode_special)
          (exec_special-known s (as_native d name (special_flags d.function)) current_pc ok
            (special_name-known d.rs d.shift d.function e) refl)
  ]

  regimm-IsExecuted :
      is_valid d ≡ false
      → is_valid (decode_regimm d) ≡ true
      → IsExecuted (decode_regimm d) s (exec_regimm s (decode_regimm d) current_pc)
  regimm-IsExecuted fresh valid =
      let (known, flags) = decode_regimm-valid d fresh valid in
      (exec_regimm-IsSupported s (decode_regimm d) current_pc ok known, λ e. absurd (flags e))

  cop1-IsExecuted :
      (unit : FloatUnit)
      → is_valid d ≡ false
      → is_valid (decode_cop1 d) ≡ true
      → IsExecuted (decode_cop1 d) s (exec_cop1 unit s (decode_cop1 d) current_pc)
  cop1-IsExecuted unit fresh valid = elim (decode_cop1-valid unit s d current_pc ok fresh valid) [
    | inl (e, flags) ↦
        (exec_cop1-branch unit s (decode_cop1 d) current_pc ok e, λ none. absurd (flags none))
    | inr (e, known) ↦
        exec_cop1-IsExecuted unit s (decode_cop1 d) current_pc ok e
          (rw (decode_cop1-rs d, decode_cop1-function d) known)
  ]

-- What the other cases leave.
primary_is_transfer :
    (d : DecodedInstruction)
    → is_valid d ≡ false
    → is_valid (decode_primary d) ≡ true
    → (d.op == 0x02
        || d.op == 0x03
        || is_branch d.op
        || (leb 0x08 d.op && leb d.op 0x0f)
        || d.op == 0x11
        || d.op == 0x1c
        || d.op == 0x1f)
      ≡ false
    → leb d.op 0x1f ≡ false
primary_is_transfer d fresh valid h = elim (Bool-cases (leb d.op 0x1f)) [
  | inl e ↦ absurd (ground (arith, primary_high d fresh valid e, primary_middle d fresh valid))
  | inr e ↦ e
]

module _ (unit : FloatUnit) (execute_vfpu : State → ℕ → ℕ → State) (s : State)
    (d : DecodedInstruction) (address current_pc : ℕ) (ok : IsSupported s)
    (fresh : is_valid d ≡ false) where
  primary-IsExecuted :
      {s' : State}
      → is_valid (decode_primary d) ≡ true
      → execute unit execute_vfpu s (decode_primary d) address current_pc ≡ some s'
      → IsExecuted (decode_primary d) s s'
  unfolding execute
  primary-IsExecuted {s' = s'} valid =
      let D = decode_primary d in
      let op = decode_primary-op d in
      let Goal = IsExecuted D s in
      let jump = λ (e : (d.op == 0x02 || d.op == 0x03 || is_branch d.op) ≡ true).
        primary_flags d fresh valid e in
      case (D.op == 0x00) D s (λ e. absurd (ground (arith, e, op, primary_low d fresh valid)))
        (λ e0.
          case (D.op == 0x01) D s (λ e. absurd (ground (arith, e, op, primary_low d fresh valid)))
            (λ e1.
              case (D.op == 0x02 || D.op == 0x03) D s
                (λ e h. subst Goal {x = exec_jump s D current_pc} (some_lem h) (
                  exec_jump-IsSupported s D current_pc ok,
                  λ none. absurd (jump (ground (arith, e, op)) none),
                ))
                (λ e2.
                  case (is_branch D.op) D s
                    (λ e h. subst Goal {x = exec_branch s D current_pc} (some_lem h) (
                      exec_branch-IsSupported s D current_pc ok,
                      λ none. absurd (jump (ground (arith, e, op)) none),
                    ))
                    (λ e3.
                      case (leb 0x08 D.op && leb D.op 0x0f) D s
                        (λ e h.
                          subst Goal {x = exec_immediate s D} (some_lem h)
                            (exec_immediate-IsExecuted s D current_pc ok))
                        (λ e4.
                          case (D.op == 0x11) D s
                            (λ e h. subst Goal {x = exec_cop1 unit s D current_pc} (some_lem h) (
                              subst (λ x. IsExecuted x s (exec_cop1 unit s x current_pc))
                                (sym (primary_cop1 d fresh valid (ground (arith, e, op))))
                                (cop1-IsExecuted s d current_pc ok unit fresh (
                                  subst (λ x. is_valid x ≡ true)
                                    (primary_cop1 d fresh valid (ground (arith, e, op))) valid))))
                            (λ e5.
                              case (is_vfpu D.op) D s
                                (λ e. absurd (ground (arith, e, op, primary_vfpu d fresh valid)))
                                (λ e6.
                                  case (D.op == 0x1c) D s
                                    (λ e h.
                                      subst Goal {x = exec_special2 s D current_pc} (some_lem h) (
                                        exec_special2-IsExecuted s D current_pc ok
                                          (primary_special2 d fresh valid (ground (arith, e, op)))))
                                    (λ e7.
                                      case (D.op == 0x1f) D s
                                        (λ e h.
                                          subst Goal {x = exec_special3 s D current_pc} (some_lem h)
                                            (exec_special3-IsExecuted s D current_pc ok (
                                              primary_special3 d fresh valid
                                                (ground (arith, e, op)))))
                                        (λ e8 h.
                                          let high =
                                            primary_is_transfer d fresh valid
                                              (ground (arith, e2, e3, e4, e5, e7, e8, op)) in
                                          let (name, known) = primary_transfer d fresh valid high in
                                          let (ok', order) =
                                            exec_transfer-IsPlain s ok D address current_pc
                                              {name = name} (rw op known) (ground (arith, high, op))
                                              h in
                                          (ok', λ none. order))))))))))

  special_runs :
      {s' : State}
      → d.op ≡ 0
      → is_valid (decode_special d) ≡ true
      → execute unit execute_vfpu s (decode_special d) address current_pc ≡ some s'
      → IsExecuted (decode_special d) s s'
  unfolding execute
  special_runs zero valid h =
      subst (IsExecuted (decode_special d) s) {x = exec_special s (decode_special d) current_pc}
        (some_lem (sym (rw (decode_special-op d ∙ zero, execute) refl) ∙ h))
        (special-IsExecuted s d current_pc ok zero fresh valid)

  regimm_runs :
      {s' : State}
      → d.op ≡ 1
      → is_valid (decode_regimm d) ≡ true
      → execute unit execute_vfpu s (decode_regimm d) address current_pc ≡ some s'
      → IsExecuted (decode_regimm d) s s'
  unfolding execute
  regimm_runs one valid h =
      subst (IsExecuted (decode_regimm d) s) {x = exec_regimm s (decode_regimm d) current_pc}
        (some_lem (sym (rw (decode_regimm-op d ∙ one, execute) refl) ∙ h))
        (regimm-IsExecuted s d current_pc ok fresh valid)

-- A valid scalar instruction is executed.
pub execute-IsExecuted :
    (unit : FloatUnit) (execute_vfpu : State → ℕ → ℕ → State) (s : State)
    (word address current_pc : ℕ) {s' : State}
    → IsSupported s
    → vfpu_opcode_supported word ≡ false
    → is_valid (decode_allegrex word) ≡ true
    → execute unit execute_vfpu s (decode_allegrex word) address current_pc ≡ some s'
    → IsExecuted (decode_allegrex word) s s'
unfolding decode_allegrex
execute-IsExecuted unit execute_vfpu s word address current_pc {s' = s'} ok scalar =
    let d = fields word in
    let Goal = λ (x : DecodedInstruction).
      is_valid x ≡ true
      → execute unit execute_vfpu s x address current_pc ≡ some s'
      → IsExecuted x s s' in
    elim (Bool-cases (shr word 26 == 0)) [
      | inl e ↦
          subst Goal {x = decode_special d} (sym (rw (scalar, e, decode_allegrex) refl))
            (special_runs unit execute_vfpu s d address current_pc ok refl (ground (arith, e)))
      | inr e ↦ elim (Bool-cases (shr word 26 == 1)) [
        | inl f ↦
            subst Goal {x = decode_regimm d} (sym (rw (scalar, e, f, decode_allegrex) refl))
              (regimm_runs unit execute_vfpu s d address current_pc ok refl (ground (arith, f)))
        | inr f ↦
            subst Goal {x = decode_primary d} (sym (rw (scalar, e, f, decode_allegrex) refl))
              (primary-IsExecuted unit execute_vfpu s d address current_pc ok refl)
      ]
    ]

-- ===== src/Cpu/Laws/Groups.antt =====
-- The groups of opcodes: what decoding accepts, the interpreter executes, and without a flag in order.
use psprism.Base.{ℕ, ◌≡◌, ◌≢◌, refl, arith, bit_and, Bool}
use psprism.Base.{true, false, Bool-cases, inl, inr, ◌⊎◌, ◌==◌}
use psprism.Base.{◌&&◌, ◌||◌, shr, ltb, leb}
use psprism.Decoder.Instruction.{DecodedInstruction, is_valid}
use psprism.Decoder.Decode.{special_flags, decode_regimm}
use psprism.Decoder.Decode.{decode_cop1, is_special3}
use psprism.Cpu.State.{State}
use psprism.Cpu.Execute.Control.{fail, branch, exec_regimm, exec_jump}
use psprism.Cpu.Execute.Special.{exec_special}
use psprism.Cpu.Execute.Special3.{exec_special2, exec_special3, exec_immediate}
use psprism.Cpu.Execute.Float.{FloatUnit, exec_cop1, exec_single, compare_f32, set_fpu_condition}
use psprism.Cpu.Execute.Interpret.{exec_branch}
use psprism.Cpu.Laws.Support.{IsSupported, IsSequential, is_low, is_high}
use psprism.Cpu.Laws.Support.{exec_low-IsSupported, exec_low-IsSequential, exec_high-IsSupported}
use psprism.Cpu.Laws.Support.{exec_high-IsSequential}

-- The instruction was executed; without a flag, control went on in order.
abbrev pub IsExecuted : DecodedInstruction → State → State → Type 0
IsExecuted d s s' = IsSupported s' × (d.flags ≡ 0 → IsSequential s s')

module _ (s : State) (d : DecodedInstruction) (current_pc : ℕ) (ok : IsSupported s) where
  pub exec_special-known :
      (is_low d.function ≡ true × ltb d.function 0x18 ≡ true)
        ⊎ (is_high d.function ≡ true × ltb d.function 0x18 ≡ false)
      → d.flags ≡ special_flags d.function
      → IsExecuted d s (exec_special s d current_pc)
  unfolding exec_special special_flags
  exec_special-known (inl (h, lt)) flags =
      rw (lt, exec_special)
        (
          exec_low-IsSupported s d current_pc ok h,
          λ e.
              exec_low-IsSequential s d current_pc ok h (ground (arith, flags, e))
                (ground (arith, flags, e)),
        )
  exec_special-known (inr (h, lt)) flags =
      rw (lt, exec_special)
        (exec_high-IsSupported s d current_pc ok h, λ e. exec_high-IsSequential s d current_pc ok h)

  branch-stop_reason :
      (condition likely : Bool)
      → (branch s d current_pc condition likely).stop_reason ≡ s.stop_reason
  unfolding branch
  branch-stop_reason condition likely = ground arith

  pub exec_branch-IsSupported : IsSupported (exec_branch s d current_pc)
  unfolding exec_branch branch
  exec_branch-IsSupported = ground arith

  pub exec_jump-IsSupported : IsSupported (exec_jump s d current_pc)
  unfolding exec_jump
  exec_jump-IsSupported = ground arith

  pub exec_immediate-IsExecuted : IsExecuted d s (exec_immediate s d)
  unfolding exec_immediate
  exec_immediate-IsExecuted = (ground arith, λ e. ground arith)

  pub exec_special2-IsExecuted :
      (d.function == 0x20 || d.function == 0x21 || d.function == 0x2c || d.function == 0x2d) ≡ true
      → IsExecuted d s (exec_special2 s d current_pc)
  unfolding exec_special2
  exec_special2-IsExecuted h = (ground arith, λ e. ground arith)

  pub exec_special3-IsExecuted :
      is_special3 d ≡ true → IsExecuted d s (exec_special3 s d current_pc)
  unfolding exec_special3
  exec_special3-IsExecuted h = (ground arith, λ e. ground arith)

abbrev pub is_regimm : ℕ → Bool
is_regimm rt =
    rt == 0x00
    || rt == 0x01
    || rt == 0x02
    || rt == 0x03
    || rt == 0x10
    || rt == 0x11
    || rt == 0x12
    || rt == 0x13

pub decode_regimm-valid :
    (d : DecodedInstruction)
    → is_valid d ≡ false
    → is_valid (decode_regimm d) ≡ true
    → (is_regimm (decode_regimm d).rt ≡ true) × ((decode_regimm d).flags ≢ 0)
unfolding decode_regimm
decode_regimm-valid d h valid = ground arith

pub exec_regimm-IsSupported :
    (s : State) (d : DecodedInstruction) (current_pc : ℕ)
    → IsSupported s
    → is_regimm d.rt ≡ true
    → IsSupported (exec_regimm s d current_pc)
unfolding exec_regimm branch
exec_regimm-IsSupported s d current_pc ok h = ground arith

abbrev pub is_scalar : ℕ → Bool
is_scalar f =
    leb f 0x07 || (leb 0x0c f && leb f 0x0f) || f == 0x11 || f == 0x20 || f == 0x24 || leb 0x30 f

module _ (unit : FloatUnit) (s : State) (d : DecodedInstruction) (current_pc : ℕ)
    (ok : IsSupported s) where
  compare_f32-IsExecuted :
      (cc left right condition : ℕ) → IsExecuted d s (compare_f32 unit s cc left right condition)
  unfolding compare_f32 set_fpu_condition
  compare_f32-IsExecuted cc left right condition = (ok, λ e. (refl, refl))

  exec_single-compare :
      leb 0x30 d.function ≡ true
      → exec_single unit s d current_pc
        ≡ compare_f32 unit s
            (bit_and (shr d.word 8) 7)
            (s.fpr d.rd)
            (s.fpr d.rt)
            (bit_and d.function 15)
  unfolding exec_single
  exec_single-compare h = ground arith

  exec_single-IsSupported :
      leb 0x30 d.function ≡ false
      → is_scalar d.function ≡ true
      → IsSupported (exec_single unit s d current_pc)
  unfolding exec_single
  exec_single-IsSupported h known = ground arith

  exec_single-IsSequential :
      leb 0x30 d.function ≡ false → IsSequential s (exec_single unit s d current_pc)
  unfolding exec_single fail
  exec_single-IsSequential h = ground arith

  exec_single-IsExecuted :
      is_scalar d.function ≡ true → IsExecuted d s (exec_single unit s d current_pc)
  exec_single-IsExecuted h = elim (Bool-cases (leb 0x30 d.function)) [
    | inl e ↦ rw (exec_single-compare e) (compare_f32-IsExecuted _ _ _ _)
    | inr e ↦ (exec_single-IsSupported e h, λ none. exec_single-IsSequential e)
  ]

  pub exec_cop1-IsExecuted :
      d.rs ≢ 0x08
      → (d.rs == 0x00
          || d.rs == 0x02
          || d.rs == 0x04
          || d.rs == 0x06
          || (d.rs == 0x10 && is_scalar d.function)
          || (d.rs == 0x14 && d.function == 0x20))
        ≡ true
      → IsExecuted d s (exec_cop1 unit s d current_pc)
  unfolding exec_cop1
  exec_cop1-IsExecuted ne h =
      (ground (arith, exec_single-IsExecuted), λ none. ground (arith, exec_single-IsExecuted))

  pub exec_cop1-branch : d.rs ≡ 0x08 → IsSupported (exec_cop1 unit s d current_pc)
  unfolding exec_cop1 branch
  exec_cop1-branch h = ground arith

  pub decode_cop1-valid :
      is_valid d ≡ false
      → is_valid (decode_cop1 d) ≡ true
      → (((decode_cop1 d).rs ≡ 0x08) × ((decode_cop1 d).flags ≢ 0))
        ⊎ (((decode_cop1 d).rs ≢ 0x08)
            × ((d.rs == 0x00
                  || d.rs == 0x02
                  || d.rs == 0x04
                  || d.rs == 0x06
                  || (d.rs == 0x10 && is_scalar d.function)
                  || (d.rs == 0x14 && d.function == 0x20))
                ≡ true))
  unfolding decode_cop1
  decode_cop1-valid h valid = ground arith

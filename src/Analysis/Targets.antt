-- ===== src/Analysis/Targets.antt =====
-- Where a branch goes that the interpreter executes: include/psprecomp/interpreter.hpp.
use psprism.Base.{ℕ, ◌+◌, ◌*◌, ◌≡◌, refl, subst, arith, bit_and}
use psprism.Base.{bit_or, Bool, true, false, ◌&&◌, ◌||◌, ◌==◌, some, inl, inr}
use psprism.Base.{u32, shl, sign_extend16, Bool-cases}
use psprism.Decoder.Instruction.{DecodedInstruction}
use psprism.Cpu.State.{State}
use psprism.Cpu.Execute.Control.{branch, exec_regimm, exec_jump, fail}
use psprism.Cpu.Execute.Float.{FloatUnit, exec_cop1}
use psprism.Cpu.Execute.Interpret.{exec_branch, is_branch, execute}

-- The target of a branch and of a jump at an address.
abbrev pub branch_address : ℕ → ℕ → ℕ
branch_address pc word = u32 (u32 (pc + 4) + u32 (sign_extend16 (bit_and word 0xffff) * 4))

abbrev pub jump_address : ℕ → ℕ → ℕ
jump_address pc word =
    bit_or (bit_and (u32 (pc + 4)) 0xf0000000) (u32 (shl (bit_and word 0x03ffffff) 2))

-- A direct branch by its opcode.
abbrev pub is_relative : DecodedInstruction → Bool
is_relative d = d.op == 0x01 || is_branch d.op || (d.op == 0x11 && d.rs == 0x08)

module _ (s : State) (d : DecodedInstruction) (pc : ℕ) (quiet : s.branch_pending ≡ false) where
  -- A state whose pending branch, where it has one, goes to an address.
  abbrev GoesTo : ℕ → State → Type 0
  GoesTo t s' = (s'.branch_pending ≡ true) → s'.branch_target ≡ t

  branch-target :
      (s1 : State) (condition likely : Bool)
      → s1.branch_pending ≡ false
      → GoesTo (branch_address pc d.word) (branch s1 d pc condition likely)
  unfolding branch
  branch-target s1 condition likely q h = ground arith

  exec_branch-target : GoesTo (branch_address pc d.word) (exec_branch s d pc)
  unfolding exec_branch branch
  exec_branch-target h = ground arith

  exec_regimm-target : GoesTo (branch_address pc d.word) (exec_regimm s d pc)
  unfolding exec_regimm branch fail
  exec_regimm-target h = ground arith

  exec_jump-target : GoesTo (jump_address pc d.word) (exec_jump s d pc)
  unfolding exec_jump
  exec_jump-target h = refl

  exec_cop1-target :
      (unit : FloatUnit) → d.rs ≡ 8 → GoesTo (branch_address pc d.word) (exec_cop1 unit s d pc)
  unfolding exec_cop1 branch
  exec_cop1-target unit e h = ground arith

  module _ (unit : FloatUnit) (execute_vfpu : State → ℕ → ℕ → State) (address : ℕ) where
    pub execute-jump :
        {s' : State}
        → (d.op == 0x02 || d.op == 0x03) ≡ true
        → execute unit execute_vfpu s d address pc ≡ some s'
        → GoesTo (jump_address pc d.word) s'
    unfolding execute
    execute-jump {s' = s'} op h =
        let runs : exec_jump s d pc ≡ s' = ground (arith, op, h) in
        subst (GoesTo (jump_address pc d.word)) runs exec_jump-target

    pub execute-relative :
        {s' : State}
        → is_relative d ≡ true
        → execute unit execute_vfpu s d address pc ≡ some s'
        → GoesTo (branch_address pc d.word) s'
    unfolding execute
    execute-relative {s' = s'} op h = elim (Bool-cases (d.op == 0x01)) [
      | inl e ↦
          let runs : exec_regimm s d pc ≡ s' = ground (arith, e, h) in
          subst (GoesTo (branch_address pc d.word)) runs exec_regimm-target
      | inr e ↦ elim (Bool-cases (is_branch d.op)) [
        | inl f ↦
            let runs : exec_branch s d pc ≡ s' = ground (arith, e, f, h) in
            subst (GoesTo (branch_address pc d.word)) runs exec_branch-target
        | inr f ↦
            let runs : exec_cop1 unit s d pc ≡ s' = ground (arith, e, f, op, h) in
            subst (GoesTo (branch_address pc d.word)) runs
              (exec_cop1-target unit (ground (arith, e, f, op)))
      ]
    ]

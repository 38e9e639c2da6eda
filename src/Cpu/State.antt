-- ===== src/Cpu/State.antt =====
-- include/psprecomp/runtime.hpp: the guest state, on a portable host: no direct memory access, and
-- the profile counters, which normal builds compile away, are left out. Register files are functions
-- of the index, which the decoder keeps in range; a memory region is its bytes, or null.
use psprism.Base.{ℕ, Bool, true, false, ◌==◌, if◌then◌else◌, List, Option}

pub data StopReason : Type 0 where
  running returned step_limit invalid_pc unsupported_instruction memory_fault syscall breakpoint :
      StopReason

pub record State : Type 0 where
  pub gpr : ℕ → ℕ
  pub hi : ℕ
  pub lo : ℕ
  pub fpr : ℕ → ℕ
  pub fcr31 : ℕ
  pub vfpu : ℕ → ℕ
  pub vfpu_ctrl : ℕ → ℕ
  pub pc : ℕ
  pub memory : Option (List ℕ)
  pub memory_base : ℕ
  pub scratchpad : Option (List ℕ)
  pub video_memory : Option (List ℕ)
  pub volatile_memory : Option (List ℕ)
  pub branch_pending : Bool
  pub branch_target : ℕ
  pub stop_reason : StopReason
  pub fault_address : ℕ
  pub fault_instruction : ℕ
  pub fault_pc : ℕ

abbrev pub is_running : State → Bool
is_running s = elim s.stop_reason [ running ↦ true | _ ↦ false ]

-- `file[index] = value` for a register file.
abbrev pub put : (ℕ → ℕ) → ℕ → ℕ → ℕ → ℕ
put file index value i = if i == index then value else file i

abbrev pub set_gpr : State → ℕ → ℕ → State
set_gpr s index value = record s { gpr = put s.gpr index value }

abbrev pub set_fpr : State → ℕ → ℕ → State
set_fpr s index value = record s { fpr = put s.fpr index value }

-- ===== src/Kernel/Table.antt =====
-- std::unordered_map from a uid to an object, and the result register of a stub. The order of the
-- entries is not observed.
use psprism.Base.{ℕ, Bool, true, false, ◌==◌, if◌then◌else◌, List, [], ◌∷◌, Option, none, some, ◌≡◌}
use psprism.Base.{arith}
use psprism.Cpu.State.{State, set_gpr}

module _ {ℓ} {A : Type ℓ} where
  -- `find`
  unfoldable pub find : ℕ → List (ℕ × A) → Option A
  find uid [] = none
  find uid ((key, a) ∷ entries) = if key == uid then some a else find uid entries

  -- A write through the pointer that `find` gave.
  unfoldable pub update : ℕ → A → List (ℕ × A) → List (ℕ × A)
  update uid a [] = []
  update uid a ((key, b) ∷ entries) =
      let rest = update uid a entries in if key == uid then (key, a) ∷ entries else (key, b) ∷ rest

  -- `emplace`: an entry that is there stays.
  unfoldable pub emplace : ℕ → A → List (ℕ × A) → List (ℕ × A)
  unfolding find
  emplace uid a entries = elim (find uid entries) [ some _ ↦ entries | none ↦ (uid, a) ∷ entries ]

  -- `erase`
  unfoldable pub erase : ℕ → List (ℕ × A) → List (ℕ × A)
  erase uid [] = []
  erase uid ((key, a) ∷ entries) =
      let rest = erase uid entries in if key == uid then entries else (key, a) ∷ rest

  -- Is there an entry?
  unfoldable pub has : ℕ → List (ℕ × A) → Bool
  unfolding find
  has uid entries = elim (find uid entries) [ some _ ↦ true | none ↦ false ]

  pub find-update :
      (uid other : ℕ) (a : A) (entries : List (ℕ × A)) {b : A}
      → find uid entries ≡ some b
      → find other (update uid a entries) ≡ (if uid == other then some a else find other entries)
  unfolding find update
  find-update uid other a [] h = absurd (ground arith)
  find-update uid other a ((key, c) ∷ entries) {b = b} h =
      ground (arith, find-update uid other a entries {b = b})

-- `state.gpr[2] = result; return;`
abbrev pub returns : State → ℕ → State
returns state result = set_gpr state 2 result

abbrev pub unimplemented : ℕ
unimplemented = 0x8002013a

abbrev pub out_of_memory : ℕ
out_of_memory = 0x80020190

abbrev pub wait_timeout : ℕ
wait_timeout = 0x800201a8

abbrev pub semaphore_zero : ℕ
semaphore_zero = 0x800201ad

abbrev pub event_flag_condition : ℕ
event_flag_condition = 0x800201af

abbrev pub unknown_mailbox : ℕ
unknown_mailbox = 0x8002019b

abbrev pub mailbox_no_message : ℕ
mailbox_no_message = 0x800201b2

abbrev pub wait_deleted : ℕ
wait_deleted = 0x800201b5

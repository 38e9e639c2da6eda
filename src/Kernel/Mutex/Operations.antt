-- ===== src/Kernel/Mutex/Operations.antt =====
-- The stubs of locks; a lock is two steps, up to the condition variable and from it on. `thread` is
-- `current_thread_id`.
use psprism.Base.{ℕ, Bool, not, ◌&&◌, ◌||◌, ◌==◌, if◌then◌else◌, Option, none, some}
use psprism.Cpu.State.{State}
use psprism.Kernel.Table.{find, update, emplace, erase, has, returns, unimplemented, wait_timeout}
use psprism.Kernel.Objects.{Kernel, Mutex, allocate_uid, int_add, int_sub, int_max}
use psprism.Kernel.Semaphore.Handlers.{read_timeout}

-- `gpr[5] ? gpr[5] : 1`
abbrev pub times_of : ℕ → ℕ
times_of word = if word == 0 then 1 else word

-- The lambda `available`
unfoldable pub is_free_for : ℕ → Bool → Mutex → Bool
is_free_for thread exit_requested mutex =
    mutex.lock_count == 0 || mutex.owner_thread_id == thread || exit_requested

unfoldable pub take_lock : ℕ → ℕ → Mutex → Option Mutex
unfolding int_add
take_lock thread times mutex = elim (int_add mutex.lock_count times) [
  | none ↦ none
  | some lock_count ↦ some (record { lock_count = lock_count; owner_thread_id = thread })
]

-- -1 is the owner of a free lock.
unfoldable pub release_lock : ℕ → Mutex → Option Mutex
unfolding int_sub
release_lock times mutex = elim (int_sub mutex.lock_count times) [
  | none ↦ none
  | some rest ↦
      let lock_count = int_max 0 rest in
      some (record {
        lock_count = lock_count;
        owner_thread_id = if lock_count == 0 then 0xffffffff else mutex.owner_thread_id;
      })
]

unfoldable pub sce_kernel_create_mutex : Kernel → State → Kernel × State
unfolding allocate_uid emplace
sce_kernel_create_mutex kernel state =
    let (uid, kernel') = allocate_uid kernel in
    let mutex : Mutex = record { lock_count = 0; owner_thread_id = 0xffffffff } in
    (record kernel' { mutexes = emplace uid mutex kernel'.mutexes }, returns state uid)

unfoldable pub sce_kernel_delete_mutex : Kernel → State → Kernel × State
unfolding has erase
sce_kernel_delete_mutex kernel state = (
  record kernel { mutexes = erase (state.gpr 4) kernel.mutexes },
  returns state (if has (state.gpr 4) kernel.mutexes then 0 else unimplemented),
)

pub data Lock : Type 0 where
  refused : State → Lock
  waiting : Mutex → Option ℕ → Lock

unfoldable pub sce_kernel_lock_mutex_begin : Kernel → State → Lock
unfolding find read_timeout
sce_kernel_lock_mutex_begin kernel state = elim (find (state.gpr 4) kernel.mutexes) [
  | none ↦ refused (returns state unimplemented)
  | some mutex ↦ elim (read_timeout state (state.gpr 6)) [
    | none ↦ refused (returns state unimplemented)
    | some timeout ↦ waiting mutex timeout
  ]
]

-- `acquired` is false when the time is over.
unfoldable pub sce_kernel_lock_mutex_end : ℕ → Bool → Bool → Mutex → State → Option (Mutex × State)
unfolding take_lock
sce_kernel_lock_mutex_end thread acquired exit_requested mutex state =
    let taken : Option (Mutex × State) = elim (take_lock thread (times_of (state.gpr 5)) mutex) [
      | none ↦ none
      | some mutex' ↦ some (mutex', returns state 0)
    ] in
    if acquired && not exit_requested then taken else some (mutex, returns state wait_timeout)

unfoldable pub sce_kernel_unlock_mutex : Kernel → State → Option (Kernel × State)
unfolding find update release_lock
sce_kernel_unlock_mutex kernel state = elim (find (state.gpr 4) kernel.mutexes) [
  | none ↦ some (kernel, returns state unimplemented)
  | some mutex ↦ elim (release_lock (times_of (state.gpr 5)) mutex) [
    | none ↦ none
    | some mutex' ↦
        some
          (record kernel { mutexes = update (state.gpr 4) mutex' kernel.mutexes }, returns state 0)
  ]
]

-- ===== src/Kernel/Semaphore/Handlers.antt =====
-- The semaphore stubs. A wait is two steps, since the thread leaves the lock between them: up to the
-- condition variable, and from it on. The condition variable lets the second begin when `is_available`
-- holds, at once and under the same lock if it holds before, or when the time is over.
use psprism.Base.{ℕ, Bool, true, false, not, ◌||◌, ◌==◌, if◌then◌else◌, [], Option, none, some}
use psprism.Cpu.State.{State}
use psprism.Cpu.Memory.{mapped_address, read_at}
use psprism.Kernel.Table.{
  find, update, emplace, erase, has, returns, unimplemented, semaphore_zero, wait_timeout,
}
use psprism.Kernel.Objects.{Kernel, Semaphore, allocate_uid, int_ltb}
use psprism.Kernel.Semaphore.Operations.{Waiter, signal, poll, enter, remove_waiter, acquire}

unfoldable pub sce_kernel_create_sema : Kernel → State → Kernel × State
unfolding allocate_uid emplace
sce_kernel_create_sema kernel state =
    let (uid, kernel') = allocate_uid kernel in
    let semaphore : Semaphore = record {
      count = state.gpr 6;
      maximum = state.gpr 7;
      next_wait_ticket = 0;
      waiting_tickets = [];
    } in
    (record kernel' { semaphores = emplace uid semaphore kernel'.semaphores }, returns state uid)

unfoldable pub sce_kernel_delete_sema : Kernel → State → Kernel × State
unfolding has erase
sce_kernel_delete_sema kernel state = (
  record kernel { semaphores = erase (state.gpr 4) kernel.semaphores },
  returns state (if has (state.gpr 4) kernel.semaphores then 0 else unimplemented),
)

abbrev put_semaphore : Kernel → ℕ → Semaphore → Kernel
put_semaphore kernel uid semaphore = record kernel {
  semaphores = update uid semaphore kernel.semaphores;
}

-- An unknown semaphore leaves the result register as it is.
unfoldable pub sce_kernel_signal_sema : Kernel → State → Option (Kernel × State)
unfolding find update signal
sce_kernel_signal_sema kernel state = elim (find (state.gpr 4) kernel.semaphores) [
  | none ↦ some (kernel, state)
  | some semaphore ↦ elim (signal semaphore (state.gpr 5)) [
    | none ↦ none
    | some semaphore' ↦ some (put_semaphore kernel (state.gpr 4) semaphore', returns state 0)
  ]
]

unfoldable pub sce_kernel_poll_sema : Kernel → State → Option (Kernel × State)
unfolding find update poll
sce_kernel_poll_sema kernel state = elim (find (state.gpr 4) kernel.semaphores) [
  | none ↦ some (kernel, returns state unimplemented)
  | some semaphore ↦ elim (poll semaphore (state.gpr 5)) [
    | none ↦ none
    | some (acquired, semaphore') ↦ some (
      put_semaphore kernel (state.gpr 4) semaphore',
      returns state (if acquired then 0 else semaphore_zero),
    )
  ]
]

-- A refused call, or a thread at the condition variable, with its time in microseconds.
pub data Wait : Type 0 where
  refused : State → Wait
  waiting : Kernel → Waiter → Option ℕ → Wait

-- The timeout at the address in a register, where 0 is for none: `none` for an unmapped address.
unfoldable pub read_timeout : State → ℕ → Option (Option ℕ)
unfolding mapped_address read_at
read_timeout state at = if at == 0 then some none else elim (mapped_address state at 4) [
  | none ↦ none
  | some p ↦ elim (read_at state p 4) [ none ↦ none | some microseconds ↦ some (some microseconds) ]
]

unfoldable pub sce_kernel_wait_sema_begin : Kernel → State → Wait
unfolding find update enter read_timeout
sce_kernel_wait_sema_begin kernel state = elim (find (state.gpr 4) kernel.semaphores) [
  | none ↦ refused (returns state unimplemented)
  | some semaphore ↦
      let requested = state.gpr 5 in
      let (waiter, semaphore') = enter semaphore requested in
      if not (int_ltb 0 requested) || int_ltb semaphore.maximum requested
      then refused (returns state unimplemented)
      else elim (read_timeout state (state.gpr 6)) [
        | none ↦ refused (returns state unimplemented)
        | some timeout ↦ waiting (put_semaphore kernel (state.gpr 4) semaphore') waiter timeout
      ]
]

-- The thread holds the semaphore, also when its uid is deleted.
unfoldable pub sce_kernel_wait_sema_end :
    Bool → Bool → Semaphore → Waiter → State → Option (Semaphore × State)
unfolding remove_waiter acquire
sce_kernel_wait_sema_end true exit_requested semaphore waiter state =
    some (remove_waiter semaphore waiter, returns state wait_timeout)
sce_kernel_wait_sema_end false exit_requested semaphore waiter state =
    elim (acquire exit_requested semaphore waiter) [
      | none ↦ none
      | some semaphore' ↦ some (semaphore', returns state 0)
    ]

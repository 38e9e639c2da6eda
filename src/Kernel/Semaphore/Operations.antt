-- ===== src/Kernel/Semaphore/Operations.antt =====
-- What the semaphore stubs do under the semaphore's lock: sceKernelSignalSema.cpp, sceKernelPollSema.cpp
-- and sceKernelWaitSema.cpp. `none` is an `int` overflow.
use psprism.Base.{
  ℕ, ◌+◌, Bool, true, false, not, ◌&&◌, ◌||◌, ◌==◌, if◌then◌else◌, List, [], ◌∷◌, ◌++◌, Option,
  none, some,
}
use psprism.Base.{u64}
use psprism.Kernel.Objects.{Semaphore, int_ltb, int_min, int_add, int_sub}

-- What a thread in sceKernelWaitSema keeps.
pub record Waiter : Type 0 where
  pub ticket : ℕ
  pub requested : ℕ
  pub queued : Bool

abbrev pub is_empty : List ℕ → Bool
is_empty [] = true
is_empty (ticket ∷ tickets) = false

-- `!tickets.empty() && tickets.front() == ticket`
abbrev pub is_front : ℕ → List ℕ → Bool
is_front ticket [] = false
is_front ticket (front ∷ tickets) = front == ticket

-- `std::find` and `erase` of what it found.
unfoldable pub erase_ticket : ℕ → List ℕ → List ℕ
erase_ticket ticket [] = []
erase_ticket ticket (front ∷ tickets) =
    let rest = erase_ticket ticket tickets in if front == ticket then tickets else front ∷ rest

unfoldable pub signal : Semaphore → ℕ → Option Semaphore
unfolding int_add
signal semaphore amount = elim (int_add semaphore.count amount) [
  | none ↦ none
  | some sum ↦ some (record semaphore { count = int_min semaphore.maximum sum })
]

-- The count is not enough, or others wait.
abbrev pub is_contended : Semaphore → ℕ → Bool
is_contended semaphore requested =
    int_ltb semaphore.count requested || not (is_empty semaphore.waiting_tickets)

unfoldable pub take : Semaphore → ℕ → Option Semaphore
unfolding int_sub
take semaphore requested = elim (int_sub semaphore.count requested) [
  | none ↦ none
  | some rest ↦ some (record semaphore { count = rest })
]

-- Whether the poll succeeds, and the semaphore after it.
unfoldable pub poll : Semaphore → ℕ → Option (Bool × Semaphore)
unfolding take
poll semaphore requested =
    if not (int_ltb 0 requested) || is_contended semaphore requested
    then some (false, semaphore)
    else elim (take semaphore requested) [ none ↦ none | some semaphore' ↦ some (true, semaphore') ]

-- The beginning of a wait: a ticket, and a place in the queue.
unfoldable pub enter : Semaphore → ℕ → Waiter × Semaphore
enter semaphore requested =
    let queued = is_contended semaphore requested in
    let ticket = semaphore.next_wait_ticket in
    (
      record { ticket = ticket; requested = requested; queued = queued },
      record semaphore {
        next_wait_ticket = u64 (ticket + 1);
        waiting_tickets =
            if queued then semaphore.waiting_tickets ++ ticket ∷ [] else semaphore.waiting_tickets;
      },
    )

-- The lambda `available`
unfoldable pub is_available : Bool → Semaphore → Waiter → Bool
is_available exit_requested semaphore waiter =
    exit_requested
    || not waiter.queued
    || is_front waiter.ticket semaphore.waiting_tickets
      && not (int_ltb semaphore.count waiter.requested)

unfoldable pub remove_waiter : Semaphore → Waiter → Semaphore
unfolding erase_ticket
remove_waiter semaphore waiter =
    if waiter.queued
    then record semaphore { waiting_tickets = erase_ticket waiter.ticket semaphore.waiting_tickets }
    else semaphore

-- The end of a wait that did not time out.
unfoldable pub acquire : Bool → Semaphore → Waiter → Option Semaphore
unfolding remove_waiter take
acquire true semaphore waiter = some (remove_waiter semaphore waiter)
acquire false semaphore waiter = take (remove_waiter semaphore waiter) waiter.requested

-- ===== src/Kernel/Semaphore/System.antt =====
-- A semaphore and the threads that wait for it, as a step relation: each step is one critical section
-- of a stub, in whatever order the threads come.
use psprism.Base.{
  ℕ, suc, ◌+◌, ◌^◌, ◌≤◌, ◌<◌, ◌≡◌, Bool, true, false, ◌==◌, if◌then◌else◌, List, [], ◌∷◌, ◌++◌,
  some,
}
use psprism.Kernel.Objects.{Semaphore}
use psprism.Kernel.Semaphore.Operations.{
  Waiter, signal, poll, enter, is_available, remove_waiter, acquire,
}

-- `blocked` has the queued threads, in the order they came.
pub record System : Type 0 where
  pub semaphore : Semaphore
  pub blocked : List Waiter

pub data IsBlocked : Waiter → List Waiter → Type 0 where
  here : {waiter : Waiter} {rest : List Waiter} → IsBlocked waiter (waiter ∷ rest)
  there :
      {waiter other : Waiter} {rest : List Waiter}
      → IsBlocked waiter rest
      → IsBlocked waiter (other ∷ rest)

-- The waiters without the one of a ticket.
unfoldable pub leave : ℕ → List Waiter → List Waiter
leave ticket [] = []
leave ticket (waiter ∷ waiters) =
    let rest = leave ticket waiters in if waiter.ticket == ticket then waiters else waiter ∷ rest

-- A step gives out a number of tokens and adds at most a number of them. The amount of a signal is
-- not negative, and a semaphore has fewer than 2 ^ 64 waits.
pub data Step : System → ℕ → ℕ → System → Type 0 where
  signals :
      {system : System} {semaphore : Semaphore} (amount : ℕ)
      → amount < 2 ^ 31
      → signal system.semaphore amount ≡ some semaphore
      → Step system 0 amount (record system { semaphore = semaphore })
  polls :
      {system : System} {semaphore : Semaphore} {acquired : Bool} (requested : ℕ)
      → requested < 2 ^ 32
      → poll system.semaphore requested ≡ some (acquired, semaphore)
      → Step system (if acquired then requested else 0) 0 (record system { semaphore = semaphore })
  enters :
      {system : System} {entered semaphore : Semaphore} {waiter : Waiter} (requested : ℕ)
      → 0 < requested
      → requested < 2 ^ 31
      → requested ≤ system.semaphore.maximum
      → suc system.semaphore.next_wait_ticket < 2 ^ 64
      → enter system.semaphore requested ≡ (waiter, entered)
      → waiter.queued ≡ false
      → acquire false entered waiter ≡ some semaphore
      → Step system requested 0 (record system { semaphore = semaphore })
  queues :
      {system : System} {entered : Semaphore} {waiter : Waiter} (requested : ℕ)
      → 0 < requested
      → requested < 2 ^ 31
      → requested ≤ system.semaphore.maximum
      → suc system.semaphore.next_wait_ticket < 2 ^ 64
      → enter system.semaphore requested ≡ (waiter, entered)
      → waiter.queued ≡ true
      → Step system 0 0 (record { semaphore = entered; blocked = system.blocked ++ waiter ∷ [] })
  wakes :
      {system : System} {semaphore : Semaphore} (waiter : Waiter)
      → IsBlocked waiter system.blocked
      → is_available false system.semaphore waiter ≡ true
      → acquire false system.semaphore waiter ≡ some semaphore
      → Step system waiter.requested 0
          (record { semaphore = semaphore; blocked = leave waiter.ticket system.blocked })
  times_out :
      {system : System} (waiter : Waiter)
      → IsBlocked waiter system.blocked
      → Step system 0 0 (record {
        semaphore = remove_waiter system.semaphore waiter;
        blocked = leave waiter.ticket system.blocked;
      })

-- Several steps, with the tokens given out and added in all.
pub data Reaches : System → ℕ → ℕ → System → Type 0 where
  stays : {system : System} → Reaches system 0 0 system
  steps :
      {before middle after : System} {given added more_given more_added : ℕ}
      → Reaches before given added middle
      → Step middle more_given more_added after
      → Reaches before (given + more_given) (added + more_added) after

-- ===== src/Kernel/Semaphore/Progress.antt =====
-- The first blocked thread after a signal.
use psprism.Base.{ℕ, ◌+◌, ◌-◌, ◌^◌, ◌≤◌, ◌<◌, ◌≡◌, subst, ap, ◌∙◌, arith, true, false}
use psprism.Base.{List, ◌∷◌, suc, inl, inr}
use psprism.Base.{some}
use psprism.Kernel.Objects.{Semaphore, int_add, int_min}
use psprism.Kernel.Semaphore.Operations.{Waiter, signal, is_available, remove_waiter, acquire}
use psprism.Kernel.Semaphore.System.{System, IsBlocked, here, signals, Reaches, there}
use psprism.Kernel.Semaphore.Fair.{IsFair, QueuedFrom, tickets, acquire_lem, QueuedFrom-IsBlocked}
use psprism.Kernel.Semaphore.Invariant.{Step-IsKept, Reaches-IsKept}
use psprism.Kernel.Semaphore.Next.{IsNext, Reaches-IsNext}
use psprism.Kernel.Semaphore.Order.{turn_of}

signal-some :
    (semaphore : Semaphore) (amount : ℕ)
    → semaphore.maximum < 2 ^ 31
    → semaphore.count + amount < 2 ^ 31
    → signal semaphore amount
      ≡ some (record semaphore { count = int_min semaphore.maximum (semaphore.count + amount) })
unfolding signal int_add
signal-some semaphore amount p q = ground arith

is_available_first :
    (semaphore : Semaphore) (waiter : Waiter) (rest : List Waiter)
    → semaphore.waiting_tickets ≡ tickets (waiter ∷ rest)
    → semaphore.count < 2 ^ 31
    → waiter.requested ≤ semaphore.count
    → is_available false semaphore waiter ≡ true
unfolding is_available
is_available_first semaphore waiter rest same p q = ground (arith, same)

-- The turn is at most the ticket of a blocked thread.
turn-IsBlocked :
    (maximum next low : ℕ) {waiter : Waiter} {waiters : List Waiter}
    → IsBlocked waiter waiters
    → QueuedFrom maximum next low waiters
    → turn_of next waiters ≤ waiter.ticket
turn-IsBlocked maximum next low here q = omega arith
turn-IsBlocked maximum next low (there {other = other} m) (low_enough, r, s, t, rest) =
    let (later, some_tokens, few, is_queued) =
      QueuedFrom-IsBlocked maximum next (suc other.ticket) m rest in
    omega (arith, later)

-- A signal that brings the count to what the first blocked thread of a fair state asked for, and
-- does not overflow, keeps these tokens for it: whatever steps follow, as long as it is blocked,
-- nobody has got a token since, it can go, and going takes its tokens from the count.
pub signal-is_available :
    (system : System) (waiter : Waiter) (rest : List Waiter) (amount : ℕ) {semaphore : Semaphore}
    {given added : ℕ} {after : System}
    → IsFair system
    → system.blocked ≡ waiter ∷ rest
    → waiter.requested ≤ system.semaphore.count + amount
    → system.semaphore.count + amount < 2 ^ 31
    → signal system.semaphore amount ≡ some semaphore
    → Reaches (record system { semaphore = semaphore }) given added after
    → IsBlocked waiter after.blocked
    → (given ≡ 0)
      × (is_available false after.semaphore waiter ≡ true)
      × (acquire false after.semaphore waiter
          ≡ some (record (remove_waiter after.semaphore waiter) {
            count = after.semaphore.count - waiter.requested;
          }))
signal-is_available system waiter rest amount {semaphore = semaphore} {after = after} f first enough
      small signalled run m =
    let maximum = system.semaphore.maximum in
    let next = system.semaphore.next_wait_ticket in
    let middle = record system { semaphore = semaphore } in
    let g : IsFair middle =
      (Step-IsKept {before = system} (signals amount (omega arith) signalled) f).fair in
    let (low, some_tokens, few, is_queued, others) =
      subst (λ (b : List Waiter). QueuedFrom maximum next 0 b) first f.in_order in
    let count : semaphore.count ≡ int_min maximum (system.semaphore.count + amount) =
      cc (signalled, signal-some system.semaphore amount f.maximum_fits small) in
    let is_next : IsNext waiter middle = record {
      rest = rest;
      first = first;
      enough = ground (arith, count, few, enough);
    } in
    let last = (Reaches-IsKept run g).fair in
    elim (Reaches-IsNext waiter run g is_next) [
      | inl (still, nothing) ↦ (
        nothing,
        is_available_first after.semaphore waiter still.rest
            (last.same_tickets ∙ ap tickets still.first)
            (omega (arith, last.maximum_fits, last.count_fits)) still.enough,
        acquire_lem after.semaphore waiter (omega (arith, last.maximum_fits, last.count_fits))
            still.enough,
      )
      | inr later ↦
          let up =
            turn-IsBlocked after.semaphore.maximum after.semaphore.next_wait_ticket 0 m
              last.in_order in
          absurd (omega (arith, later, up))
    ]

-- ===== src/Kernel/Semaphore/Next.antt =====
-- The first blocked thread whose tokens are there, from step to step.
use psprism.Base.{ℕ, ◌^◌, ◌≤◌, ◌<◌, ◌≡◌, sym, subst, ap, ◌∙◌, arith, true, false}
use psprism.Base.{
  List, [], ◌∷◌, ◌++◌, suc, refl, Bool, if◌then◌else◌, inl, inr, ◌⊎◌, Bool-cases, ◌==◌,
}
use psprism.Base.{some}
use psprism.Kernel.Objects.{Semaphore}
use psprism.Kernel.Semaphore.Operations.{Waiter, signal, remove_waiter, is_contended, poll, enter}
use psprism.Kernel.Semaphore.System.{
  System, leave, signals, wakes, Reaches, stays, steps, Step, polls, enters, queues, times_out,
}
use psprism.Kernel.Semaphore.Fair.{IsFair, QueuedFrom, signal_lem, poll_lem, enter_lem}
use psprism.Kernel.Semaphore.Invariant.{Reaches-IsKept}
use psprism.Kernel.Semaphore.Order.{
  turn, turn_of, turn-QueuedFrom, is_contended-empty, poll-free, Ascends-wakes, Step-Ascends,
  Ascends-le, service, remove_waiter-count, remove_waiter-next_wait_ticket,
}

-- The first blocked thread, with its tokens there.
pub record IsNext (waiter : Waiter) (system : System) : Type 0 where
  pub rest : List Waiter
  pub first : system.blocked ≡ waiter ∷ rest
  pub enough : waiter.requested ≤ system.semaphore.count

-- While a thread is blocked, nobody is let in before it.
not_free :
    (system : System) (waiter : Waiter) (requested : ℕ)
    → IsFair system
    → IsNext waiter system
    → ¬ (is_contended system.semaphore requested ≡ false)
not_free system waiter requested f is_next free =
    absurd (cc (is_contended-empty system requested f free, is_next.first))

module _ (waiter : Waiter) where
  IsNext-signals :
      (system : System) (amount : ℕ) {semaphore : Semaphore}
      → IsFair system
      → IsNext waiter system
      → amount < 2 ^ 31
      → signal system.semaphore amount ≡ some semaphore
      → IsNext waiter (record system { semaphore = semaphore })
  IsNext-signals system amount f is_next small h =
      let (n, is_n, most, paid, least) =
        signal_lem system.semaphore amount f.maximum_fits f.count_fits small h in
      let count = ap (λ (s : Semaphore). s.count) is_n in
      record {
        rest = is_next.rest;
        first = is_next.first;
        enough = omega (arith, count, least, is_next.enough);
      }

  IsNext-polls :
      (system : System) (requested : ℕ) {acquired : Bool} {semaphore : Semaphore}
      → IsFair system
      → IsNext waiter system
      → requested < 2 ^ 32
      → poll system.semaphore requested ≡ some (acquired, semaphore)
      → IsNext waiter (record system { semaphore = semaphore })
        × ((if acquired then requested else 0) ≡ 0)
  IsNext-polls system requested {acquired = true} f is_next small h =
      absurd (not_free system waiter requested f is_next (poll-free system.semaphore requested h))
  IsNext-polls system requested {acquired = false} f is_next small h =
      let (same, had) =
        poll_lem system.semaphore requested (omega (arith, f.maximum_fits, f.count_fits)) small h in
      let count = ap (λ (s : Semaphore). s.count) same in
      (
        record {
          rest = is_next.rest;
          first = is_next.first;
          enough = omega (arith, count, is_next.enough);
        },
        refl,
      )

  IsNext-queues :
      (system : System) (requested : ℕ) {other : Waiter} {entered : Semaphore}
      → IsNext waiter system
      → suc system.semaphore.next_wait_ticket < 2 ^ 64
      → enter system.semaphore requested ≡ (other, entered)
      → IsNext waiter (record { semaphore = entered; blocked = system.blocked ++ other ∷ [] })
  IsNext-queues system requested {other = other} is_next few h =
      let (is_other, is_entered) = enter_lem system.semaphore requested few h in
      let count = ap (λ (s : Semaphore). s.count) is_entered in
      record {
        rest = is_next.rest ++ other ∷ [];
        first = ap (λ (b : List Waiter). b ++ other ∷ []) is_next.first;
        enough = omega (arith, count, is_next.enough);
      }

  IsNext-times_out :
      (system : System) (other : Waiter)
      → IsFair system
      → IsNext waiter system
      → IsNext waiter (record {
        semaphore = remove_waiter system.semaphore other;
        blocked = leave other.ticket system.blocked;
      })
        ⊎ (waiter.ticket
            < turn (record {
              semaphore = remove_waiter system.semaphore other;
              blocked = leave other.ticket system.blocked;
            }))
  unfolding leave
  IsNext-times_out system other f is_next =
      let maximum = system.semaphore.maximum in
      let next = system.semaphore.next_wait_ticket in
      let left = ap (leave other.ticket) is_next.first in
      let count = remove_waiter-count system.semaphore other in
      let (low, some_tokens, few, is_queued, others) =
        subst (λ (b : List Waiter). QueuedFrom maximum next 0 b) is_next.first f.in_order in
      let later = turn-QueuedFrom maximum next (suc waiter.ticket) is_next.rest others in
      elim (Bool-cases (waiter.ticket == other.ticket)) [
        | inl e ↦
            let same : turn (record {
              semaphore = remove_waiter system.semaphore other;
              blocked = leave other.ticket system.blocked;
            })
                ≡ turn_of next is_next.rest =
              ap (λ n. turn_of n (leave other.ticket system.blocked))
                (remove_waiter-next_wait_ticket system.semaphore other)
              ∙ ap (turn_of next) {y = is_next.rest} (left ∙ ground (arith, e)) in
            inr (omega (arith, same, later))
        | inr e ↦ inl (record {
          rest = leave other.ticket is_next.rest;
          first = left ∙ ground (arith, e);
          enough = omega (arith, count, is_next.enough);
        })
      ]

  -- The next thread stays the next, and nobody gets tokens, until the turn is a later one's.
  Step-IsNext :
      {before after : System} {given added : ℕ}
      → Step before given added after
      → IsFair before
      → IsNext waiter before
      → (IsNext waiter after × (given ≡ 0)) ⊎ (waiter.ticket < turn after)
  Step-IsNext {before = before} (signals amount small h) f is_next =
      inl (IsNext-signals before amount f is_next small h, refl)
  Step-IsNext {before = before} (polls requested small h) f is_next =
      inl (IsNext-polls before requested f is_next small h)
  Step-IsNext {before = before} (enters requested some_tokens small possible few h at_once got) f
        is_next =
      let (is_other, is_entered) = enter_lem before.semaphore requested few h in
      absurd (
        not_free before waiter requested f is_next
          (ap (λ (w : Waiter). w.queued) (sym is_other) ∙ at_once))
  Step-IsNext {before = before} (queues requested some_tokens small possible few h waits) f
        is_next =
      inl (IsNext-queues before requested is_next few h, refl)
  Step-IsNext {before = before} (wakes other m h got) f is_next =
      let (from, later) = Ascends-wakes before f other m h got in
      let first = ap (turn_of before.semaphore.next_wait_ticket) is_next.first in
      inr (omega (arith, from, later, first))
  Step-IsNext {before = before} {after = after} (times_out other m) f is_next =
      elim (IsNext-times_out before other f is_next) [
        | inl still ↦ inl (still, refl)
        | inr later ↦ inr later
      ]

  pub Reaches-IsNext :
      {before after : System} {given added : ℕ}
      → Reaches before given added after
      → IsFair before
      → IsNext waiter before
      → (IsNext waiter after × (given ≡ 0)) ⊎ (waiter.ticket < turn after)
  Reaches-IsNext stays f is_next = inl (is_next, refl)
  Reaches-IsNext {after = after} (steps {middle = middle} earlier step) f is_next =
      let g = (Reaches-IsKept earlier f).fair in
      elim (Reaches-IsNext earlier f is_next) [
        | inl (still, nothing) ↦ elim (Step-IsNext step g still) [
          | inl (stays_next, nothing_more) ↦ inl (stays_next, omega (arith, nothing, nothing_more))
          | inr later ↦ inr later
        ]
        | inr later ↦
            let rising =
              Ascends-le (turn middle) (turn after) (service step) (Step-Ascends step g) in
            inr (omega (arith, later, rising))
      ]

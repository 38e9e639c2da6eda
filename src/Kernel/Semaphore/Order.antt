-- ===== src/Kernel/Semaphore/Order.antt =====
-- The order in which a semaphore serves: whose turn it is, and who gets tokens in a run.
use psprism.Base.{
  ℕ, suc, ◌-◌, ◌^◌, ◌≤◌, ◌<◌, ◌≡◌, refl, sym, subst, ap, ◌∙◌, arith, Bool, true, false, ◌==◌,
}
use psprism.Base.{if◌then◌else◌, List, [], ◌∷◌, ◌++◌, some, Bool-cases, inl, inr}
use psprism.Kernel.Objects.{Semaphore, int_sub}
use psprism.Kernel.Semaphore.Operations.{
  Waiter, is_contended, take, poll, enter, is_available, remove_waiter, acquire,
}
use psprism.Kernel.Semaphore.System.{
  System, IsBlocked, leave, Step, signals, polls, enters, queues, wakes, times_out, Reaches, stays,
  steps,
}
use psprism.Kernel.Semaphore.Fair.{
  IsFair, QueuedFrom, tickets, signal_lem, poll_lem, enter_lem, front-QueuedFrom,
}
use psprism.Kernel.Semaphore.Invariant.{Reaches-IsKept}

-- Who gets tokens: a thread by its ticket, or a poll, which comes before the next ticket.
pub data Service : Type 0 where
  waited polled : ℕ → Service

-- The services of a step, and of a run from its first step on.
unfoldable pub service :
    {before after : System} {given added : ℕ} → Step before given added after → List Service
service (signals amount small h) = []
service (polls {system = system} {acquired = acquired} requested small h) =
    if acquired then polled system.semaphore.next_wait_ticket ∷ [] else []
service (enters {waiter = waiter} requested some_tokens small possible few h at_once got) =
    waited waiter.ticket ∷ []
service (queues requested some_tokens small possible few h waits) = []
service (wakes waiter m h got) = waited waiter.ticket ∷ []
service (times_out waiter m) = []

unfoldable pub services :
    {before after : System} {given added : ℕ} → Reaches before given added after → List Service
unfolding service
services stays = []
services (steps earlier step) = services earlier ++ service step

-- The ticket whose turn it is: the first blocked thread's, or else the next one to be given.
abbrev pub turn_of : ℕ → List Waiter → ℕ
turn_of next [] = next
turn_of next (waiter ∷ waiters) = waiter.ticket

abbrev pub turn : System → ℕ
turn system = turn_of system.semaphore.next_wait_ticket system.blocked

-- The tickets ascend, from a bound on to another; no two threads have the same.
abbrev pub Ascends : ℕ → List Service → ℕ → Type 0
Ascends low [] high = low ≤ high
Ascends low (waited ticket ∷ rest) high = (low ≤ ticket) × Ascends (suc ticket) rest high
Ascends low (polled ticket ∷ rest) high = (low ≤ ticket) × Ascends ticket rest high

Ascends-append :
    (low middle high : ℕ) (xs ys : List Service)
    → Ascends low xs middle
    → Ascends middle ys high
    → Ascends low (xs ++ ys) high
Ascends-append low middle high [] [] a b = omega arith
Ascends-append low middle high [] (waited t ∷ ys) a (b, c) = (omega arith, c)
Ascends-append low middle high [] (polled t ∷ ys) a (b, c) = (omega arith, c)
Ascends-append low middle high (waited t ∷ xs) ys (a, b) c =
    (a, Ascends-append (suc t) middle high xs ys b c)
Ascends-append low middle high (polled t ∷ xs) ys (a, b) c =
    (a, Ascends-append t middle high xs ys b c)

pub Ascends-le : (low high : ℕ) (xs : List Service) → Ascends low xs high → low ≤ high
Ascends-le low high [] a = a
Ascends-le low high (waited t ∷ xs) (a, b) = omega (arith, Ascends-le (suc t) high xs b)
Ascends-le low high (polled t ∷ xs) (a, b) = omega (arith, Ascends-le t high xs b)

-- Nobody waits where the queue lets a newcomer in.
pub is_contended-empty :
    (system : System) (requested : ℕ)
    → IsFair system
    → is_contended system.semaphore requested ≡ false
    → system.blocked ≡ []
is_contended-empty system requested f free = empty system.blocked f.same_tickets
  where
    empty :
        (waiters : List Waiter) → system.semaphore.waiting_tickets ≡ tickets waiters → waiters ≡ []
    empty [] same = refl
    empty (waiter ∷ waiters) same = absurd (ground (arith, free, same))

-- Where the first thread leaves, the turn goes to a later ticket.
pub turn-QueuedFrom :
    (maximum next low : ℕ) (waiters : List Waiter)
    → QueuedFrom maximum next low waiters
    → low ≤ turn_of next waiters
turn-QueuedFrom maximum next low [] q = q
turn-QueuedFrom maximum next low (waiter ∷ waiters) (q, r, s, t, rest) = q

turn-leave :
    (maximum next low ticket : ℕ) (waiters : List Waiter)
    → QueuedFrom maximum next low waiters
    → turn_of next waiters ≤ turn_of next (leave ticket waiters)
unfolding leave
turn-leave maximum next low ticket [] q = omega arith
turn-leave maximum next low ticket (waiter ∷ waiters) (q, r, s, t, rest) =
    elim (Bool-cases (waiter.ticket == ticket)) [
      | inl e ↦ rw e (omega (arith, turn-QueuedFrom maximum next (suc waiter.ticket) waiters rest))
      | inr e ↦ rw e (omega arith)
    ]

turn-append :
    (next : ℕ) (requested : ℕ) (waiters : List Waiter)
    → turn_of next waiters
      ≤ turn_of
          (suc next)
          (waiters ++ record { ticket = next; requested = requested; queued = true } ∷ [])
turn-append next requested [] = omega arith
turn-append next requested (waiter ∷ waiters) = omega arith

-- A semaphore keeps the fields that the turn is about.
turn-same :
    (system : System) {semaphore : Semaphore} (n : ℕ)
    → semaphore ≡ record system.semaphore { count = n }
    → turn (record system { semaphore = semaphore }) ≡ turn system
turn-same system n e = ap (λ (s : Semaphore). turn_of s.next_wait_ticket system.blocked) e

-- The turn of a semaphore for which nobody waits.
turn-empty :
    (system : System) → system.blocked ≡ [] → turn system ≡ system.semaphore.next_wait_ticket
turn-empty system none_blocked = ap (turn_of system.semaphore.next_wait_ticket) none_blocked

pub poll-free :
    (semaphore : Semaphore) (requested : ℕ) {semaphore' : Semaphore}
    → poll semaphore requested ≡ some (true, semaphore')
    → is_contended semaphore requested ≡ false
unfolding poll
poll-free semaphore requested h = elim (Bool-cases (is_contended semaphore requested)) [
  | inl e ↦ absurd (ground (arith, e, h))
  | inr e ↦ e
]

Ascends-polls :
    (system : System) (requested : ℕ) {acquired : Bool} {semaphore : Semaphore} (f : IsFair system)
    (small : requested < 2 ^ 32) (h : poll system.semaphore requested ≡ some (acquired, semaphore))
    → Ascends
        (turn system)
        (if acquired then polled system.semaphore.next_wait_ticket ∷ [] else [])
        (turn (record system { semaphore = semaphore }))
Ascends-polls system requested {acquired = true} f small h =
    let (is_next, had) =
      poll_lem system.semaphore requested (omega (arith, f.maximum_fits, f.count_fits)) small h in
    let free = is_contended-empty system requested f (poll-free system.semaphore requested h) in
    let same = turn-same system (system.semaphore.count - requested) is_next in
    let first = turn-empty system free in (omega (arith, first), omega (arith, first, same))
Ascends-polls system requested {acquired = false} f small h =
    let (is_next, had) =
      poll_lem system.semaphore requested (omega (arith, f.maximum_fits, f.count_fits)) small h in
    omega (arith, ap (λ (s : Semaphore). turn_of s.next_wait_ticket system.blocked) is_next)

acquire-next_wait_ticket :
    (semaphore : Semaphore) (waiter : Waiter) {semaphore' : Semaphore}
    → acquire false semaphore waiter ≡ some semaphore'
    → semaphore'.next_wait_ticket ≡ semaphore.next_wait_ticket
unfolding acquire remove_waiter take int_sub
acquire-next_wait_ticket semaphore waiter h = ground (arith, h)

Ascends-enters :
    (system : System) (f : IsFair system) (requested : ℕ) {waiter : Waiter}
    {entered semaphore : Semaphore}
    → suc system.semaphore.next_wait_ticket < 2 ^ 64
    → enter system.semaphore requested ≡ (waiter, entered)
    → waiter.queued ≡ false
    → acquire false entered waiter ≡ some semaphore
    → Ascends
        (turn system)
        (waited waiter.ticket ∷ [])
        (turn (record system { semaphore = semaphore }))
Ascends-enters system f requested {waiter = waiter} {entered = entered} {semaphore = semaphore} few
      h at_once got =
    let (is_waiter, is_entered) = enter_lem system.semaphore requested few h in
    let free : is_contended system.semaphore requested ≡ false =
      ap (λ (w : Waiter). w.queued) (sym is_waiter) ∙ at_once in
    let none_blocked = is_contended-empty system requested f free in
    let ticket = ap (λ (w : Waiter). w.ticket) is_waiter in
    let next : semaphore.next_wait_ticket ≡ suc system.semaphore.next_wait_ticket =
      acquire-next_wait_ticket entered waiter got
      ∙ ap (λ (s : Semaphore). s.next_wait_ticket) is_entered in
    let before = turn-empty system none_blocked in
    let after = turn-empty (record system { semaphore = semaphore }) none_blocked in
    (omega (arith, ticket, before), omega (arith, ticket, next, after))

Ascends-queues :
    (system : System) (f : IsFair system) (requested : ℕ) {waiter : Waiter} {entered : Semaphore}
    → suc system.semaphore.next_wait_ticket < 2 ^ 64
    → enter system.semaphore requested ≡ (waiter, entered)
    → waiter.queued ≡ true
    → turn system ≤ turn (record { semaphore = entered; blocked = system.blocked ++ waiter ∷ [] })
Ascends-queues system f requested few h is_queued =
    let (is_waiter, is_entered) = enter_lem system.semaphore requested few h in
    let contended : is_contended system.semaphore requested ≡ true =
      ap (λ (w : Waiter). w.queued) (sym is_waiter) ∙ is_queued in
    rw (is_waiter, is_entered, contended)
      (turn-append system.semaphore.next_wait_ticket requested system.blocked)

pub remove_waiter-next_wait_ticket :
    (semaphore : Semaphore) (waiter : Waiter)
    → (remove_waiter semaphore waiter).next_wait_ticket ≡ semaphore.next_wait_ticket
unfolding remove_waiter
remove_waiter-next_wait_ticket semaphore waiter = ground arith

pub Ascends-wakes :
    (system : System) (f : IsFair system) (waiter : Waiter) {semaphore : Semaphore}
    → IsBlocked waiter system.blocked
    → is_available false system.semaphore waiter ≡ true
    → acquire false system.semaphore waiter ≡ some semaphore
    → Ascends
        (turn system)
        (waited waiter.ticket ∷ [])
        (turn (record { semaphore = semaphore; blocked = leave waiter.ticket system.blocked }))
Ascends-wakes system f waiter {semaphore = semaphore} m h got =
    let maximum = system.semaphore.maximum in
    let next = system.semaphore.next_wait_ticket in
    let (rest, first, gone, enough) =
      front-QueuedFrom maximum next 0 system.semaphore system.blocked f.same_tickets m f.in_order
        f.maximum_fits f.count_fits h in
    let queue : QueuedFrom maximum next 0 (waiter ∷ rest) =
      subst (λ (b : List Waiter). QueuedFrom maximum next 0 b) first f.in_order in
    let (low, some_tokens, possible, is_queued, others) = queue in
    let later = turn-QueuedFrom maximum next (suc waiter.ticket) rest others in
    let before = ap (turn_of next) first in
    let after : turn
          (record { semaphore = semaphore; blocked = leave waiter.ticket system.blocked })
        ≡ turn_of next rest =
      ap (λ n. turn_of n (leave waiter.ticket system.blocked))
        (acquire-next_wait_ticket system.semaphore waiter got)
      ∙ ap (turn_of next) gone in
    (omega (arith, before), omega (arith, later, after))

pub remove_waiter-count :
    (semaphore : Semaphore) (waiter : Waiter)
    → (remove_waiter semaphore waiter).count ≡ semaphore.count
unfolding remove_waiter
remove_waiter-count semaphore waiter = ground arith

Ascends-times_out :
    (system : System) (f : IsFair system) (waiter : Waiter)
    → turn system
      ≤ turn (record {
        semaphore = remove_waiter system.semaphore waiter;
        blocked = leave waiter.ticket system.blocked;
      })
Ascends-times_out system f waiter = rw (remove_waiter-next_wait_ticket system.semaphore waiter) (
    turn-leave system.semaphore.maximum system.semaphore.next_wait_ticket 0 waiter.ticket
      system.blocked f.in_order)

pub Step-Ascends :
    {before after : System} {given added : ℕ} (step : Step before given added after)
    → IsFair before
    → Ascends (turn before) (service step) (turn after)
unfolding service
Step-Ascends {before = before} (signals amount small h) f =
    let (n, is_n, most, paid, least) =
      signal_lem before.semaphore amount f.maximum_fits f.count_fits small h in
    omega (arith, turn-same before n is_n)
Step-Ascends {before = before} (polls requested small h) f =
    Ascends-polls before requested f small h
Step-Ascends {before = before} (enters requested some_tokens small possible few h at_once got) f =
    Ascends-enters before f requested few h at_once got
Step-Ascends {before = before} (queues requested some_tokens small possible few h waits) f =
    Ascends-queues before f requested few h waits
Step-Ascends {before = before} (wakes waiter m h got) f = Ascends-wakes before f waiter m h got
Step-Ascends {before = before} (times_out waiter m) f = Ascends-times_out before f waiter

-- Tokens are given out in the order of the tickets: in every run from a fair state, the tickets of
-- the threads and the polls that get tokens, in the order in which they get them, do not descend,
-- and after that of a thread come only greater ones. They are at least the ticket whose turn it is
-- at first and at most the one whose turn it is at last, where the turn is the first blocked
-- thread's, or else the next ticket's. A poll stands at the ticket that is given next.
pub services-Ascends :
    {before after : System} {given added : ℕ}
    → IsFair before
    → (run : Reaches before given added after) → Ascends (turn before) (services run) (turn after)
unfolding services
services-Ascends f stays = omega arith
services-Ascends {before = before} {after = after} f (steps {middle = middle} earlier step) =
    Ascends-append (turn before) (turn middle) (turn after) (services earlier) (service step)
      (services-Ascends f earlier) (Step-Ascends step (Reaches-IsKept earlier f).fair)

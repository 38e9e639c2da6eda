-- ===== src/Kernel/Semaphore/Fair.antt =====
-- The queue of a semaphore: in every reachable state the tickets are the blocked threads', in the
-- order they came, and the count is between 0 and the maximum.
use psprism.Base.{ℕ, suc, ◌+◌, ◌-◌, ◌^◌, ◌≤◌, ◌<◌, ◌≡◌, refl, ap, arith, Bool, true, false, not}
use psprism.Base.{◌||◌, ◌==◌, if◌then◌else◌, List, [], ◌∷◌, ◌++◌, Bool-cases, inl, inr}
use psprism.Base.{some}
use psprism.Kernel.Objects.{Semaphore, int_ltb, int_min, int_add, int_sub}
use psprism.Kernel.Semaphore.Operations.{
  Waiter, erase_ticket, signal, take, poll, enter, is_available, is_contended, remove_waiter,
  acquire,
}
use psprism.Kernel.Semaphore.System.{System, IsBlocked, here, there, leave}

-- The tickets of threads that may wait: ascending, from a bound on and below another one, each for a
-- number of tokens that the semaphore can have.
abbrev pub QueuedFrom : ℕ → ℕ → ℕ → List Waiter → Type 0
QueuedFrom maximum next low [] = low ≤ next
QueuedFrom maximum next low (waiter ∷ waiters) =
    (low ≤ waiter.ticket)
    × (0 < waiter.requested)
    × (waiter.requested ≤ maximum)
    × (waiter.queued ≡ true)
    × QueuedFrom maximum next (suc waiter.ticket) waiters

abbrev pub tickets : List Waiter → List ℕ
tickets [] = []
tickets (waiter ∷ waiters) = waiter.ticket ∷ tickets waiters

pub record IsFair (system : System) : Type 0 where
  pub maximum_fits : system.semaphore.maximum < 2 ^ 31
  pub count_fits : system.semaphore.count ≤ system.semaphore.maximum
  pub next_fits : system.semaphore.next_wait_ticket < 2 ^ 64
  pub same_tickets : system.semaphore.waiting_tickets ≡ tickets system.blocked
  pub in_order :
      QueuedFrom system.semaphore.maximum system.semaphore.next_wait_ticket 0 system.blocked

-- Positive sums and differences.
pub signal_lem :
    (semaphore : Semaphore) (amount : ℕ) {semaphore' : Semaphore}
    → semaphore.maximum < 2 ^ 31
    → semaphore.count ≤ semaphore.maximum
    → amount < 2 ^ 31
    → signal semaphore amount ≡ some semaphore'
    → (n : ℕ) × (semaphore' ≡ record semaphore { count = n })
      × (n ≤ semaphore.maximum)
      × (n ≤ semaphore.count + amount)
      × (semaphore.count ≤ n)
unfolding signal int_add
signal_lem semaphore amount p q r h = (
  int_min semaphore.maximum (semaphore.count + amount),
  ground (arith, h),
  ground (arith, h),
  ground (arith, h),
  ground (arith, h),
)

pub take_lem :
    (semaphore : Semaphore) (requested : ℕ)
    → semaphore.count < 2 ^ 31
    → requested ≤ semaphore.count
    → take semaphore requested ≡ some (record semaphore { count = semaphore.count - requested })
unfolding take int_sub
take_lem semaphore requested p q = ground arith

-- Tickets and threads leave together.
pub erase_ticket-tickets :
    (ticket : ℕ) (waiters : List Waiter)
    → erase_ticket ticket (tickets waiters) ≡ tickets (leave ticket waiters)
unfolding erase_ticket leave
erase_ticket-tickets ticket [] = refl
erase_ticket-tickets ticket (waiter ∷ waiters) = ground (arith, erase_ticket-tickets ticket waiters)

module _ (maximum next : ℕ) where
  QueuedFrom-weaken :
      (low low' : ℕ) (waiters : List Waiter)
      → low ≤ low'
      → QueuedFrom maximum next low' waiters
      → QueuedFrom maximum next low waiters
  QueuedFrom-weaken low low' [] p q = ground arith
  QueuedFrom-weaken low low' (waiter ∷ waiters) p (q, r, s, t, rest) = (ground arith, r, s, t, rest)

  pub QueuedFrom-leave :
      (low ticket : ℕ) (waiters : List Waiter)
      → QueuedFrom maximum next low waiters
      → QueuedFrom maximum next low (leave ticket waiters)
  unfolding leave
  QueuedFrom-leave low ticket [] q = q
  QueuedFrom-leave low ticket (waiter ∷ waiters) (q, r, s, t, rest) =
      elim (Bool-cases (waiter.ticket == ticket)) [
        | inl e ↦ rw e (QueuedFrom-weaken low (suc waiter.ticket) waiters (ground arith) rest)
        | inr e ↦ rw e (q, r, s, t, QueuedFrom-leave (suc waiter.ticket) ticket waiters rest)
      ]

  pub QueuedFrom-append :
      (low requested : ℕ) (waiters : List Waiter)
      → 0 < requested
      → requested ≤ maximum
      → QueuedFrom maximum next low waiters
      → QueuedFrom maximum
          (suc next)
          low
          (waiters ++ record { ticket = next; requested = requested; queued = true } ∷ [])
  QueuedFrom-append low requested [] p r q = (q, p, r, refl, ground arith)
  QueuedFrom-append low requested (waiter ∷ waiters) p r (q, s, t, u, rest) =
      (q, s, t, u, QueuedFrom-append (suc waiter.ticket) requested waiters p r rest)

  pub QueuedFrom-next :
      (low : ℕ) (waiters : List Waiter)
      → QueuedFrom maximum next low waiters
      → QueuedFrom maximum (suc next) low waiters
  QueuedFrom-next low [] q = ground arith
  QueuedFrom-next low (waiter ∷ waiters) (q, s, t, u, rest) =
      (q, s, t, u, QueuedFrom-next (suc waiter.ticket) waiters rest)

pub tickets-append :
    (waiters : List Waiter) (waiter : Waiter)
    → tickets (waiters ++ waiter ∷ []) ≡ tickets waiters ++ waiter.ticket ∷ []
tickets-append [] waiter = refl
tickets-append (other ∷ waiters) waiter =
    ap (λ (t : List ℕ). other.ticket ∷ t) (tickets-append waiters waiter)

-- Members of a queue are queued, for a number of tokens in range.
pub QueuedFrom-IsBlocked :
    (maximum next low : ℕ) {waiter : Waiter} {waiters : List Waiter}
    → IsBlocked waiter waiters
    → QueuedFrom maximum next low waiters
    → (low ≤ waiter.ticket)
      × (0 < waiter.requested)
      × (waiter.requested ≤ maximum)
      × (waiter.queued ≡ true)
QueuedFrom-IsBlocked maximum next low here (q, s, t, u, rest) = (q, s, t, u)
QueuedFrom-IsBlocked maximum next low (there {other = other} m) (q, s, t, u, rest) =
    let (l, r, p, q') = QueuedFrom-IsBlocked maximum next (suc other.ticket) m rest in
    (ground arith, r, p, q')

-- A poll that succeeds takes its tokens, which were there, and no one waited.
pub poll_lem :
    (semaphore : Semaphore) (requested : ℕ) {acquired : Bool} {semaphore' : Semaphore}
    → semaphore.count < 2 ^ 31
    → requested < 2 ^ 32
    → poll semaphore requested ≡ some (acquired, semaphore')
    → (semaphore' ≡ (
        if acquired then record semaphore { count = semaphore.count - requested } else semaphore))
      × ((if acquired then requested else 0) ≤ semaphore.count)
unfolding poll
poll_lem semaphore requested {acquired = acquired} {semaphore' = semaphore'} p q h =
    elim (Bool-cases (not (int_ltb 0 requested) || is_contended semaphore requested)) [
      | inl e ↦ ground (arith, e, h)
      | inr e ↦ ground (arith, e, h, take_lem semaphore requested p (ground arith))
    ]

pub enter_lem :
    (semaphore : Semaphore) (requested : ℕ) {waiter : Waiter} {entered : Semaphore}
    → suc semaphore.next_wait_ticket < 2 ^ 64
    → enter semaphore requested ≡ (waiter, entered)
    → (waiter ≡ record {
      ticket = semaphore.next_wait_ticket;
      requested = requested;
      queued = is_contended semaphore requested;
    })
      × (entered ≡ record semaphore {
        next_wait_ticket = suc semaphore.next_wait_ticket;
        waiting_tickets =
            if is_contended semaphore requested
            then semaphore.waiting_tickets ++ semaphore.next_wait_ticket ∷ []
            else semaphore.waiting_tickets;
      })
unfolding enter
enter_lem semaphore requested p h = ground (arith, h)

pub front-QueuedFrom :
    (maximum next low : ℕ) (semaphore : Semaphore) {waiter : Waiter} (waiters : List Waiter)
    → semaphore.waiting_tickets ≡ tickets waiters
    → IsBlocked waiter waiters
    → QueuedFrom maximum next low waiters
    → maximum < 2 ^ 31
    → semaphore.count ≤ maximum
    → is_available false semaphore waiter ≡ true
    → (rest : List Waiter) × (waiters ≡ waiter ∷ rest)
      × (leave waiter.ticket waiters ≡ rest)
      × (waiter.requested ≤ semaphore.count)
unfolding is_available leave
front-QueuedFrom maximum next low semaphore [] same m q p c h = elim m [ ]
front-QueuedFrom maximum next low semaphore (waiter ∷ rest) same here (q, s, t, u, others) p c h =
    (rest, refl, ground arith, ground (arith, h, same, u))
front-QueuedFrom maximum next low semaphore {waiter = waiter} (other ∷ rest) same (there m)
      (q, s, t, u, others) p c h =
    let (above, some_tokens, few, is_queued) =
      QueuedFrom-IsBlocked maximum next (suc other.ticket) m others in
    absurd (ground (arith, h, same, is_queued))

pub acquire_lem :
    (semaphore : Semaphore) (waiter : Waiter)
    → semaphore.count < 2 ^ 31
    → waiter.requested ≤ semaphore.count
    → acquire false semaphore waiter
      ≡ some
          (record (remove_waiter semaphore waiter) { count = semaphore.count - waiter.requested })
unfolding acquire remove_waiter
acquire_lem semaphore waiter p q = elim (Bool-cases waiter.queued) [
  | inl e ↦
      rw (e, remove_waiter)
        (take_lem
          (record semaphore {
            waiting_tickets = erase_ticket waiter.ticket semaphore.waiting_tickets;
          })
          waiter.requested p q)
  | inr e ↦ rw (e, remove_waiter) (take_lem semaphore waiter.requested p q)
]

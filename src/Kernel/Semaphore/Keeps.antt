-- ===== src/Kernel/Semaphore/Keeps.antt =====
-- What each step of a semaphore keeps.
use psprism.Base.{
  ℕ, suc, ◌+◌, ◌-◌, ◌^◌, ◌≤◌, ◌<◌, ◌≡◌, refl, sym, subst, ap, ◌∙◌, arith, Bool, true, false,
}
use psprism.Base.{if◌then◌else◌, List, [], ◌∷◌, ◌++◌}
use psprism.Base.{some}
use psprism.Kernel.Objects.{Semaphore}
use psprism.Kernel.Semaphore.Operations.{
  Waiter, erase_ticket, signal, poll, enter, is_available, is_contended, remove_waiter, acquire,
}
use psprism.Kernel.Semaphore.System.{System, IsBlocked, leave}
use psprism.Kernel.Semaphore.Fair.{
  IsFair, signal_lem, poll_lem, acquire_lem, enter_lem, erase_ticket-tickets, QueuedFrom-leave,
  QueuedFrom-append, QueuedFrom-next, tickets-append, QueuedFrom-IsBlocked, front-QueuedFrom,
}

-- What a step keeps: fairness, the maximum, and the balance of the tokens.
pub record IsKept (before : System) (given added : ℕ) (after : System) : Type 0 where
  pub fair : IsFair after
  pub same_maximum : after.semaphore.maximum ≡ before.semaphore.maximum
  pub balance : given + after.semaphore.count ≤ before.semaphore.count + added

-- A semaphore whose count changes within its bounds stays fair.
recount :
    (system : System) (n : ℕ)
    → IsFair system
    → n ≤ system.semaphore.maximum
    → IsFair (record system { semaphore = record system.semaphore { count = n } })
recount system n f h = record {
  maximum_fits = f.maximum_fits;
  count_fits = h;
  next_fits = f.next_fits;
  same_tickets = f.same_tickets;
  in_order = f.in_order;
}

-- A blocked thread that leaves, with some of the tokens.
departs :
    (system : System) (waiter : Waiter) (n : ℕ)
    → IsFair system
    → n ≤ system.semaphore.maximum
    → waiter.queued ≡ true
    → IsFair (record {
      semaphore = record (remove_waiter system.semaphore waiter) { count = n };
      blocked = leave waiter.ticket system.blocked;
    })
unfolding remove_waiter
departs system waiter n f h is_queued =
    rw (is_queued, remove_waiter)
      (record {
        maximum_fits = f.maximum_fits;
        count_fits = h;
        next_fits = f.next_fits;
        same_tickets =
            ap (erase_ticket waiter.ticket) f.same_tickets
            ∙ erase_ticket-tickets waiter.ticket system.blocked;
        in_order =
            QueuedFrom-leave system.semaphore.maximum system.semaphore.next_wait_ticket 0
              waiter.ticket system.blocked f.in_order;
      })

pub keeps-signals :
    (system : System) (amount : ℕ) {semaphore : Semaphore}
    → IsFair system
    → amount < 2 ^ 31
    → signal system.semaphore amount ≡ some semaphore
    → IsKept system 0 amount (record system { semaphore = semaphore })
keeps-signals system amount f small h =
    let (n, is_n, most, paid, least) =
      signal_lem system.semaphore amount f.maximum_fits f.count_fits small h in
    rw is_n (record {
      fair = recount system n f most;
      same_maximum = refl;
      balance = ground (arith, paid);
    })

pub keeps-polls :
    (system : System) (requested : ℕ) {acquired : Bool} {semaphore : Semaphore}
    → IsFair system
    → requested < 2 ^ 32
    → poll system.semaphore requested ≡ some (acquired, semaphore)
    → IsKept system (if acquired then requested else 0) 0 (record system { semaphore = semaphore })
keeps-polls system requested {acquired = true} f small h =
    let (is_next, had) =
      poll_lem system.semaphore requested (ground (arith, f.maximum_fits, f.count_fits)) small h in
    rw is_next (record {
      fair = recount system (system.semaphore.count - requested) f (ground (arith, f.count_fits));
      same_maximum = refl;
      balance = ground (arith, had);
    })
keeps-polls system requested {acquired = false} f small h =
    rw
      (poll_lem system.semaphore requested (ground (arith, f.maximum_fits, f.count_fits)) small h).0
      (record { fair = f; same_maximum = refl; balance = omega arith })

module _ (system : System) (f : IsFair system) (requested : ℕ) {waiter : Waiter}
    {entered : Semaphore} where
  pub keeps-enters :
      {semaphore : Semaphore}
      → requested ≤ system.semaphore.maximum
      → suc system.semaphore.next_wait_ticket < 2 ^ 64
      → enter system.semaphore requested ≡ (waiter, entered)
      → waiter.queued ≡ false
      → acquire false entered waiter ≡ some semaphore
      → IsKept system requested 0 (record system { semaphore = semaphore })
  unfolding acquire remove_waiter
  keeps-enters {semaphore = semaphore} possible few h at_once got =
      let (is_waiter, is_entered) = enter_lem system.semaphore requested few h in
      let free : is_contended system.semaphore requested ≡ false =
        ground (arith, is_waiter, at_once) in
      let unqueued : Semaphore = record system.semaphore {
        next_wait_ticket = suc system.semaphore.next_wait_ticket;
      } in
      let enough : requested ≤ system.semaphore.count =
        ground (arith, free, f.maximum_fits, f.count_fits) in
      let is_next : semaphore ≡ record unqueued { count = system.semaphore.count - requested } =
        ground (
          arith,
          got,
          is_waiter,
          is_entered,
          free,
          acquire_lem unqueued
              (record {
                ticket = system.semaphore.next_wait_ticket;
                requested = requested;
                queued = false;
              })
              (ground (arith, f.maximum_fits, f.count_fits)) enough,
        ) in
      rw is_next (record {
        fair =
            recount (record system { semaphore = unqueued }) (system.semaphore.count - requested)
              (record {
                maximum_fits = f.maximum_fits;
                count_fits = f.count_fits;
                next_fits = ground (arith, few);
                same_tickets = f.same_tickets;
                in_order =
                    QueuedFrom-next system.semaphore.maximum system.semaphore.next_wait_ticket 0
                      system.blocked f.in_order;
              })
              (ground (arith, f.count_fits));
        same_maximum = refl;
        balance = ground (arith, enough);
      })

  pub keeps-queues :
      0 < requested
      → requested ≤ system.semaphore.maximum
      → suc system.semaphore.next_wait_ticket < 2 ^ 64
      → enter system.semaphore requested ≡ (waiter, entered)
      → waiter.queued ≡ true
      → IsKept system 0 0 (record { semaphore = entered; blocked = system.blocked ++ waiter ∷ [] })
  keeps-queues some_tokens possible few h is_queued =
      let (is_waiter, is_entered) = enter_lem system.semaphore requested few h in
      let contended : is_contended system.semaphore requested ≡ true =
        ground (arith, is_waiter, is_queued) in
      rw (is_waiter, is_entered, contended)
        (record {
          fair = record {
            maximum_fits = f.maximum_fits;
            count_fits = f.count_fits;
            next_fits = ground (arith, few);
            same_tickets =
                ap (λ (t : List ℕ). t ++ system.semaphore.next_wait_ticket ∷ []) f.same_tickets
                ∙ sym (
                    tickets-append system.blocked (record {
                      ticket = system.semaphore.next_wait_ticket;
                      requested = requested;
                      queued = true;
                    }));
            in_order =
                QueuedFrom-append system.semaphore.maximum system.semaphore.next_wait_ticket 0
                  requested system.blocked some_tokens possible f.in_order;
          };
          same_maximum = refl;
          balance = omega arith;
        })

module _ (system : System) (f : IsFair system) (waiter : Waiter)
    (m : IsBlocked waiter system.blocked) where
  is_queued : waiter.queued ≡ true
  is_queued =
      let (low, some_tokens, possible, queued) =
        QueuedFrom-IsBlocked system.semaphore.maximum system.semaphore.next_wait_ticket 0 m
          f.in_order in
      queued

  pub keeps-wakes :
      {semaphore : Semaphore}
      → is_available false system.semaphore waiter ≡ true
      → acquire false system.semaphore waiter ≡ some semaphore
      → IsKept system waiter.requested 0
          (record { semaphore = semaphore; blocked = leave waiter.ticket system.blocked })
  unfolding acquire remove_waiter
  keeps-wakes {semaphore = semaphore} h got =
      let (rest, is_front, gone, enough) =
        front-QueuedFrom system.semaphore.maximum system.semaphore.next_wait_ticket 0
          system.semaphore system.blocked f.same_tickets m f.in_order f.maximum_fits f.count_fits
          h in
      let left = remove_waiter system.semaphore waiter in
      let is_next : semaphore ≡ record left { count = system.semaphore.count - waiter.requested } =
        ground (
          arith,
          got,
          acquire_lem system.semaphore waiter (ground (arith, f.maximum_fits, f.count_fits)) enough,
        ) in
      rw is_next (record {
        fair =
            departs system waiter (system.semaphore.count - waiter.requested) f
              (ground (arith, f.count_fits)) is_queued;
        same_maximum = rw (is_queued, remove_waiter) refl;
        balance = ground (arith, enough);
      })

  pub keeps-times_out : IsKept system 0 0 (record {
    semaphore = remove_waiter system.semaphore waiter;
    blocked = leave waiter.ticket system.blocked;
  })
  unfolding remove_waiter
  keeps-times_out =
      let fair = departs system waiter system.semaphore.count f f.count_fits is_queued in
      let same : record (remove_waiter system.semaphore waiter) { count = system.semaphore.count }
          ≡ remove_waiter system.semaphore waiter =
        rw (is_queued, remove_waiter) refl in
      record {
        fair =
            subst
              (λ (s : Semaphore).
                IsFair (record { semaphore = s; blocked = leave waiter.ticket system.blocked }))
              same fair;
        same_maximum = rw (is_queued, remove_waiter) refl;
        balance = rw (is_queued, remove_waiter) (omega arith);
      }

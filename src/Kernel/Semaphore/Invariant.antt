-- ===== src/Kernel/Semaphore/Invariant.antt =====
-- Every step of a semaphore keeps its queue fair, and pays for the tokens it gives out.
use psprism.Base.{ℕ, refl, ◌∙◌, arith}
use psprism.Kernel.Semaphore.Operations.{}
use psprism.Kernel.Semaphore.System.{
  System, Step, signals, polls, enters, queues, wakes, times_out, Reaches, stays, steps,
}
use psprism.Kernel.Semaphore.Fair.{IsFair}
use psprism.Kernel.Semaphore.Keeps.{
  IsKept, keeps-signals, keeps-polls, keeps-enters, keeps-queues, keeps-wakes, keeps-times_out,
}

-- A step from a fair state leads to a fair state, keeps the maximum, and gives out no more tokens
-- than it takes from the count or adds.
pub Step-IsKept :
    {before after : System} {given added : ℕ}
    → Step before given added after
    → IsFair before
    → IsKept before given added after
Step-IsKept {before = before} (signals amount small h) f = keeps-signals before amount f small h
Step-IsKept {before = before} (polls requested small h) f = keeps-polls before requested f small h
Step-IsKept {before = before} (enters requested some_tokens small possible few h at_once got) f =
    keeps-enters before f requested possible few h at_once got
Step-IsKept {before = before} (queues requested some_tokens small possible few h waits) f =
    keeps-queues before f requested some_tokens possible few h waits
Step-IsKept {before = before} (wakes waiter m h got) f = keeps-wakes before f waiter m h got
Step-IsKept {before = before} (times_out waiter m) f = keeps-times_out before f waiter m

-- From a fair state, every sequence of steps leads to a fair state: the tickets are those of the
-- blocked threads, in the order they came, each thread waits for a number of tokens that the
-- semaphore can have, and the count is at most the maximum, which stays the same. The tokens
-- given out and those left are no more than those at first and those signalled. In a step no
-- signal is negative, and the tickets do not wrap around.
pub Reaches-IsKept :
    {before after : System} {given added : ℕ}
    → Reaches before given added after
    → IsFair before
    → IsKept before given added after
Reaches-IsKept {before = before} stays f = record {
  fair = f;
  same_maximum = refl;
  balance = omega arith;
}
Reaches-IsKept (steps earlier step) f =
    let k = Reaches-IsKept earlier f in
    let l = Step-IsKept step k.fair in
    record {
      fair = l.fair;
      same_maximum = l.same_maximum ∙ k.same_maximum;
      balance = omega (arith, k.balance, l.balance);
    }

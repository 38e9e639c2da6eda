-- ===== src/Kernel/Mutex/Exclusion.antt =====
-- A lock has one owner, and unlocking undoes locking.
use psprism.Base.{ℕ, ◌+◌, ◌^◌, ◌<◌, ◌≡◌, ◌≢◌, arith, true, false}
use psprism.Base.{some}
use psprism.Kernel.Objects.{Mutex, int_add, int_sub}
use psprism.Kernel.Mutex.Operations.{is_free_for, take_lock, release_lock}

-- A free lock has no owner.
pub record IsLock (mutex : Mutex) : Type 0 where
  pub count_fits : mutex.lock_count < 2 ^ 31
  pub free_owner : mutex.lock_count ≡ 0 → mutex.owner_thread_id ≡ 0xffffffff

-- A thread that finds a lock available, without an exit request, and takes it one or more times
-- becomes the owner, no other thread finds the lock available, and giving it back as often leaves
-- the lock as it was. A free lock has no owner, and the count does not overflow.
pub release_lock-take_lock :
    (thread times : ℕ) (mutex : Mutex)
    → IsLock mutex
    → is_free_for thread false mutex ≡ true
    → 0 < times
    → mutex.lock_count + times < 2 ^ 31
    → (other : ℕ) → other ≢ thread
    → (taken : Mutex) × (take_lock thread times mutex ≡ some taken)
      × IsLock taken
      × (is_free_for other false taken ≡ false)
      × (release_lock times taken ≡ some mutex)
unfolding take_lock release_lock is_free_for int_add int_sub
release_lock-take_lock thread times mutex lock free some_times small other is_other = (
  record { lock_count = mutex.lock_count + times; owner_thread_id = thread },
  ground arith,
  record { count_fits = small; free_owner = λ e. absurd (ground arith) },
  ground arith,
  ground (arith, free, lock.free_owner),
)

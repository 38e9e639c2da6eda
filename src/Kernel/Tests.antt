-- ===== src/Kernel/Tests.antt =====
-- Small kernel objects, and the kernel theorems at them.
use psprism.Base.{
  ℕ, Bool-cases, subst, ◌<◌, ◌+◌, ◌-◌, ◌≤◌, ◌≡◌, refl, true, false, ◌==◌, if◌then◌else◌,
}
use psprism.Base.{some, none, [], ◌∷◌, inl, inr, arith}
use psprism.Base.Sorting.{stable, count}
use psprism.Cpu.State.{State, running}
use psprism.Cpu.Memory.{other_address}
use psprism.Kernel.Table.{returns, find}
use psprism.Kernel.Objects.{Kernel, Mutex, Message, Semaphore, int_add, int_sub}
use psprism.Kernel.Memory.Blocks.{MemoryBlock, align_up}
use psprism.Kernel.Memory.Heap.{Heap, allocate_heap, heap_fit}
use psprism.Kernel.Memory.HeapOwnership.{IsHeap, free_count, allocate_heap-free_count}
use psprism.Kernel.Memory.VariablePool.{VariablePool, first_fit, free}
use psprism.Kernel.Memory.Ownership.{IsOwned, free-IsOwned}
use psprism.Kernel.Memory.Handlers.{sce_kernel_try_allocate_vpl, sce_kernel_free_vpl}
use psprism.Kernel.Memory.Pools.{
  ArePools, sce_kernel_try_allocate_vpl-ArePools, sce_kernel_free_vpl-ArePools,
}
use psprism.Kernel.Semaphore.Operations.{
  Waiter, erase_ticket, signal, take, enter, is_available, remove_waiter, acquire,
}
use psprism.Kernel.Semaphore.System.{
  System, here, leave, signals, queues, wakes, Reaches, stays, steps,
}
use psprism.Kernel.Semaphore.Fair.{IsFair}
use psprism.Kernel.Semaphore.Keeps.{IsKept}
use psprism.Kernel.Semaphore.Invariant.{Reaches-IsKept}
use psprism.Kernel.Semaphore.Order.{waited, service, services, Ascends, services-Ascends}
use psprism.Kernel.Semaphore.Progress.{signal-is_available}
use psprism.Kernel.Mailbox.Queue.{has_address, insert_by_priority, enqueue}
use psprism.Kernel.Mailbox.Order.{IsQueue, of_priority, enqueue-IsQueue}
use psprism.Kernel.Mutex.Operations.{is_free_for}
use psprism.Kernel.Mutex.Exclusion.{IsLock}

-- One thread waits for two tokens, and none is there.
abbrev sleeper : Waiter
sleeper = record { ticket = 0; requested = 2; queued = true }

abbrev contended : System
contended = record {
  semaphore = record { count = 0; maximum = 5; next_wait_ticket = 1; waiting_tickets = 0 ∷ [] };
  blocked = sleeper ∷ [];
}

contended-IsFair : IsFair contended
contended-IsFair = record {
  maximum_fits = omega arith;
  count_fits = omega arith;
  next_fits = omega arith;
  same_tickets = refl;
  in_order = (omega arith, omega arith, omega arith, refl, omega arith);
}

abbrev signalled : System
signalled = record contended {
  semaphore = record { count = 3; maximum = 5; next_wait_ticket = 1; waiting_tickets = 0 ∷ [] };
}

contended_signal : signal contended.semaphore 3 ≡ some signalled.semaphore
unfolding signal int_add
contended_signal = refl

contended-Reaches : Reaches contended 0 3 signalled
contended-Reaches = steps stays (signals 3 (omega arith) contended_signal)

Reaches-IsKept_example : IsKept contended 0 3 signalled
Reaches-IsKept_example = Reaches-IsKept contended-Reaches contended-IsFair

sleeper_goes : is_available false signalled.semaphore sleeper ≡ true
unfolding is_available
sleeper_goes = refl

abbrev awake : Semaphore
awake = record { count = 1; maximum = 5; next_wait_ticket = 1; waiting_tickets = [] }

sleeper_gets : acquire false signalled.semaphore sleeper ≡ some awake
unfolding acquire remove_waiter take int_sub erase_ticket
sleeper_gets = refl

services-Ascends_example : Ascends 0 (waited 0 ∷ []) 1
unfolding services service leave contended-Reaches
services-Ascends_example =
    services-Ascends contended-IsFair
      (steps contended-Reaches (wakes sleeper here sleeper_goes sleeper_gets))

-- A second thread comes after the signal.
abbrev second : Waiter
second = record { ticket = 1; requested = 1; queued = true }

abbrev crowded : System
crowded = record {
  semaphore = record { count = 3; maximum = 5; next_wait_ticket = 2; waiting_tickets = 0 ∷ 1 ∷ [] };
  blocked = sleeper ∷ second ∷ [];
}

second_enters : enter signalled.semaphore 1 ≡ (second, crowded.semaphore)
unfolding enter
second_enters = refl

signal-is_available_example :
    (◌≡◌ {A = ℕ} 0 0)
    × (is_available false crowded.semaphore sleeper ≡ true)
    × (acquire false crowded.semaphore sleeper
        ≡ some (record (remove_waiter crowded.semaphore sleeper) {
          count = crowded.semaphore.count - sleeper.requested;
        }))
signal-is_available_example =
    signal-is_available contended sleeper [] 3 contended-IsFair refl (omega arith) (omega arith)
      contended_signal
      (steps stays (
        queues {system = signalled} 1 (omega arith) (omega arith) (omega arith) (omega arith)
          second_enters refl))
      here

-- A mailbox by priority, with a message of priority 7.
abbrev later : Message
later = record { address = 0x100; priority = 7 }

abbrev sooner : Message
sooner = record { address = 0x200; priority = 3 }

later-IsQueue : IsQueue 0x400 (later ∷ [])
unfolding has_address
later-IsQueue = record { distinct = (refl, tt); ordered = (omega arith, tt) }

sooner_first : enqueue (later ∷ []) 0x400 0x200 3 ≡ some (sooner ∷ later ∷ [])
unfolding enqueue has_address insert_by_priority
sooner_first = refl

enqueue-IsQueue_example :
    (has_address 0x200 (later ∷ []) ≡ false)
    × IsQueue 0x400 (sooner ∷ later ∷ [])
    × (of_priority 7 (sooner ∷ later ∷ []) ≡ of_priority 7 (later ∷ []))
enqueue-IsQueue_example = enqueue-IsQueue 0x400 0x200 3 later-IsQueue sooner_first 7

abbrev open_lock : Mutex
open_lock = record { lock_count = 0; owner_thread_id = 0xffffffff }

open_lock-IsLock : IsLock open_lock
open_lock-IsLock = record { count_fits = omega arith; free_owner = λ e. refl }

open_lock_free : is_free_for 4 false open_lock ≡ true
unfolding is_free_for
open_lock_free = refl

-- Sixty-four bytes at 0x1000, of which the first sixteen are allocated.
abbrev whole : MemoryBlock
whole = record { address = 0x1000; size = 64 }

abbrev rest : MemoryBlock
rest = record { address = 0x1010; size = 48 }

abbrev fresh : VariablePool
fresh = record { backing = whole; available = whole ∷ []; allocated = [] }

abbrev used : VariablePool
used = record { backing = whole; available = rest ∷ []; allocated = (0x1000, 16) ∷ [] }

fresh-IsOwned : IsOwned fresh
unfolding count
fresh-IsOwned = record { available_fit = refl; allocated_fit = refl; once = λ byte. ground arith }

fresh_fits : first_fit 16 fresh.available ≡ some (0x1000, rest ∷ [])
unfolding first_fit
fresh_fits = refl

free-IsOwned_example : IsOwned (free stable fresh 0x1000)
free-IsOwned_example = free-IsOwned fresh fresh-IsOwned stable 0x1000

abbrev heap : Heap
heap = record {
  memory_base = 0x08800000;
  heap_cursor = 0x20;
  stack_cursor = 0x1000;
  free_heap_blocks = record { address = 0x08800010; size = 8 } ∷ [];
}

heap-IsHeap : IsHeap heap
unfolding count
heap-IsHeap = record { blocks_fit = refl; stack_fits = omega arith; cursors = omega arith }

abbrev grown : Heap
grown = record heap { heap_cursor = 0x50 }

heap_grows : allocate_heap heap 16 64 ≡ (0x08800040, grown)
unfolding allocate_heap heap_fit align_up
heap_grows = refl

allocate_heap-free_count_example : free_count grown 0x08800044 + 1 ≤ free_count heap 0x08800044
allocate_heap-free_count_example =
    allocate_heap-free_count heap heap-IsHeap 16 64 (inr refl) heap_grows (omega arith) 0x08800044

-- A thread that asks pool 256 for 16 bytes; the output is nowhere.
abbrev thread : State
thread = record {
  gpr = λ i. if i == 4 then 256 else if i == 5 then 16 else 0;
  hi = 0;
  lo = 0;
  fpr = λ i. 0;
  fcr31 = 0;
  vfpu = λ i. 0;
  vfpu_ctrl = λ i. 0;
  pc = 0;
  memory = none;
  memory_base = 0x08800000;
  scratchpad = none;
  video_memory = none;
  volatile_memory = none;
  branch_pending = false;
  branch_target = 0;
  stop_reason = running;
  fault_address = 0;
  fault_instruction = 0;
  fault_pc = 0;
}

abbrev kernel : Kernel
kernel = record {
  next_uid = 257;
  exit_requested = false;
  semaphores = [];
  mutexes = [];
  event_flags = [];
  mailboxes = [];
  fixed_pools = [];
  variable_pools = (256, fresh) ∷ [];
  memory_blocks = [];
  heap = heap;
}

kernel-ArePools : ArePools kernel.variable_pools
unfolding find
kernel-ArePools = record {
  owned = λ uid pool h. elim (Bool-cases (256 == uid)) [
    | inl e ↦ subst IsOwned {x = fresh} (ground (arith, e, h)) fresh-IsOwned
    | inr e ↦ absurd (ground (arith, e, h))
  ];
}

request_rounded : 0 < align_up (thread.gpr 5) 8
unfolding align_up
request_rounded = omega arith

abbrev served : Kernel
served = record kernel { variable_pools = (256, used) ∷ [] }

request_granted : sce_kernel_try_allocate_vpl kernel thread ≡ some (served, returns thread 0)
unfolding sce_kernel_try_allocate_vpl align_up other_address
request_granted = refl

sce_kernel_try_allocate_vpl-ArePools_example : ArePools served.variable_pools
sce_kernel_try_allocate_vpl-ArePools_example =
    sce_kernel_try_allocate_vpl-ArePools kernel thread kernel-ArePools request_rounded
      request_granted

sce_kernel_free_vpl-ArePools_example :
    ArePools (sce_kernel_free_vpl stable kernel thread).0.variable_pools
sce_kernel_free_vpl-ArePools_example =
    sce_kernel_free_vpl-ArePools stable kernel thread kernel-ArePools

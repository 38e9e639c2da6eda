-- ===== src/Kernel/Objects.antt =====
-- runtime.cpp: the kernel's objects. Names are for logging only and left out, the host's locks and
-- condition variables too: a critical section is one step. An `int` is its 32-bit two's complement
-- word.
use psprism.Base.{ℕ, ◌+◌, ◌-◌, ◌^◌, Bool, ◌||◌, ltb, if◌then◌else◌, List, Option, none, some, u32}
use psprism.Kernel.Memory.Blocks.{MemoryBlock}
use psprism.Kernel.Memory.Heap.{Heap}
use psprism.Kernel.Memory.VariablePool.{VariablePool}

pub record FixedPool : Type 0 where
  pub backing : List MemoryBlock
  pub available : List ℕ

pub record Semaphore : Type 0 where
  pub count : ℕ
  pub maximum : ℕ
  pub next_wait_ticket : ℕ
  pub waiting_tickets : List ℕ

pub record Mutex : Type 0 where
  pub lock_count : ℕ
  pub owner_thread_id : ℕ

pub record EventFlag : Type 0 where
  pub attributes : ℕ
  pub initial_bits : ℕ
  pub bits : ℕ
  pub waiting_threads : ℕ

-- mailbox_state.hpp, `Message`
pub record Message : Type 0 where
  pub address : ℕ
  pub priority : ℕ

pub record Mailbox : Type 0 where
  pub attributes : ℕ
  pub messages : List Message
  pub deleted : Bool

-- The fields of `Implementation` that the modelled stubs use.
pub record Kernel : Type 0 where
  pub next_uid : ℕ
  pub exit_requested : Bool
  pub semaphores : List (ℕ × Semaphore)
  pub mutexes : List (ℕ × Mutex)
  pub event_flags : List (ℕ × EventFlag)
  pub mailboxes : List (ℕ × Mailbox)
  pub fixed_pools : List (ℕ × FixedPool)
  pub variable_pools : List (ℕ × VariablePool)
  pub memory_blocks : List (ℕ × MemoryBlock)
  pub heap : Heap

unfoldable pub allocate_uid : Kernel → ℕ × Kernel
allocate_uid kernel = (kernel.next_uid, record kernel { next_uid = u32 (kernel.next_uid + 1) })

-- The order of the words as `int`s: -2 ^ 31 comes first.
abbrev pub int_order : ℕ → ℕ
int_order a = u32 (a + 2 ^ 31)

abbrev pub int_ltb : ℕ → ℕ → Bool
int_ltb a b = ltb (int_order a) (int_order b)

-- `a + b` and `a - b` on `int`; an overflow, which C++ leaves undefined, is `none`.
unfoldable pub int_add : ℕ → ℕ → Option ℕ
int_add a b =
    let sum = int_order a + int_order b in
    if ltb sum (2 ^ 31) || ltb (2 ^ 32 + 2 ^ 31 - 1) sum then none else some (u32 (a + b))

unfoldable pub int_sub : ℕ → ℕ → Option ℕ
int_sub a b =
    let difference = int_order a + 2 ^ 32 - int_order b in
    if ltb difference (2 ^ 31) || ltb (2 ^ 32 + 2 ^ 31 - 1) difference
    then none
    else some (u32 (a + 2 ^ 32 - b))

abbrev pub int_min : ℕ → ℕ → ℕ
int_min a b = if int_ltb b a then b else a

abbrev pub int_max : ℕ → ℕ → ℕ
int_max a b = if int_ltb a b then b else a

-- ===== src/Kernel/Memory/FixedPool.antt =====
-- Pools of equal blocks: sceKernelCreateFpl.cpp, sceKernelTryAllocateFpl.cpp, sceKernelFreeFpl.cpp and
-- sceKernelDeleteFpl.cpp. `available` has the vector's last element first.
use psprism.Base.{
  ℕ, zero, suc, Bool, true, false, ◌||◌, ◌==◌, if◌then◌else◌, List, [], ◌∷◌, ◌++◌, Option, none,
  some,
}
use psprism.Base.Sorting.{Sorting}
use psprism.Cpu.State.{State}
use psprism.Kernel.Table.{find, update, emplace, erase, returns, unimplemented, out_of_memory}
use psprism.Kernel.Objects.{Kernel, FixedPool, allocate_uid}
use psprism.Kernel.Memory.Blocks.{MemoryBlock}
use psprism.Kernel.Memory.Heap.{Heap, allocate_heap, free_heap}
use psprism.Kernel.Memory.Handlers.{put_output}

-- The loop of sceKernelCreateFpl: whether all blocks were allocated, the heap and the pool.
unfoldable pub take_blocks : Heap → ℕ → ℕ → FixedPool → Bool × Heap × FixedPool
unfolding allocate_heap
take_blocks heap size zero pool = (true, heap, pool)
take_blocks heap size (suc count) pool =
    let (address, heap') = allocate_heap heap size 64 in
    let block : MemoryBlock = record { address = address; size = size } in
    let rest =
      take_blocks heap' size count
        (record { backing = pool.backing ++ block ∷ []; available = address ∷ pool.available }) in
    if address == 0 then (false, heap', pool) else rest

unfoldable pub free_blocks : Sorting → Heap → List MemoryBlock → Heap
unfolding free_heap
free_blocks sorting heap [] = heap
free_blocks sorting heap (block ∷ blocks) =
    free_blocks sorting (free_heap sorting heap block.address block.size) blocks

unfoldable pub sce_kernel_create_fpl : Sorting → Kernel → State → Kernel × State
unfolding take_blocks free_blocks allocate_uid emplace
sce_kernel_create_fpl sorting kernel state =
    let (complete, heap, pool) =
      take_blocks kernel.heap (state.gpr 7) (state.gpr 8)
        (record { backing = []; available = [] }) in
    let (uid, kernel') = allocate_uid (record kernel { heap = heap }) in
    if state.gpr 7 == 0 || state.gpr 8 == 0
    then (kernel, returns state out_of_memory)
    else if complete
    then (record kernel' { fixed_pools = emplace uid pool kernel'.fixed_pools }, returns state uid)
    else (
      record kernel { heap = free_blocks sorting heap pool.backing },
      returns state out_of_memory,
    )

unfoldable pub sce_kernel_delete_fpl : Sorting → Kernel → State → Kernel × State
unfolding find erase free_blocks
sce_kernel_delete_fpl sorting kernel state = elim (find (state.gpr 4) kernel.fixed_pools) [
  | none ↦ (kernel, returns state unimplemented)
  | some pool ↦ (
    record kernel {
      heap = free_blocks sorting kernel.heap pool.backing;
      fixed_pools = erase (state.gpr 4) kernel.fixed_pools;
    },
    returns state 0,
  )
]

-- The last available block; address 0 is the failure.
unfoldable pub take_block : FixedPool → ℕ × FixedPool
take_block pool = elim pool.available [
  | [] ↦ (0, pool)
  | address ∷ rest ↦ (address, record pool { available = rest })
]

-- `none` is a write outside a host buffer.
unfoldable pub sce_kernel_try_allocate_fpl : Kernel → State → Option (Kernel × State)
unfolding find update take_block put_output
sce_kernel_try_allocate_fpl kernel state = elim (find (state.gpr 4) kernel.fixed_pools) [
  | none ↦ some (kernel, returns state unimplemented)
  | some pool ↦
      let (address, pool') = take_block pool in
      let kernel' : Kernel = record kernel {
        fixed_pools = update (state.gpr 4) pool' kernel.fixed_pools;
      } in
      if address == 0
      then some (kernel', returns state out_of_memory)
      else elim (put_output state (state.gpr 5) address) [
        | none ↦ none
        | some state' ↦ some (kernel', returns state' 0)
      ]
]

-- Whatever the address is, it is available from now on.
unfoldable pub sce_kernel_free_fpl : Kernel → State → Kernel × State
unfolding find update
sce_kernel_free_fpl kernel state = elim (find (state.gpr 4) kernel.fixed_pools) [
  | none ↦ (kernel, state)
  | some pool ↦ (
    record kernel {
      fixed_pools =
          update (state.gpr 4) (record pool { available = state.gpr 5 ∷ pool.available })
            kernel.fixed_pools;
    },
    returns state 0,
  )
]

-- ===== src/Kernel/Memory/Handlers.antt =====
-- The stubs of guest memory: sceKernelAllocPartitionMemory, sceKernelFreePartitionMemory,
-- sceKernelTotalFreeMemSize, sceKernelMaxFreeMemSize, and those of variable pools. `none` is a write
-- outside a host buffer, which C++ leaves undefined.
use psprism.Base.{ℕ, ◌==◌, if◌then◌else◌, [], ◌∷◌, Option, none, some}
use psprism.Base.Sorting.{Sorting}
use psprism.Cpu.State.{State}
use psprism.Cpu.Memory.{mapped_address, write_at}
use psprism.Kernel.Table.{find, update, emplace, erase, returns, unimplemented, out_of_memory}
use psprism.Kernel.Objects.{Kernel, allocate_uid}
use psprism.Kernel.Memory.Blocks.{MemoryBlock, align_up}
use psprism.Kernel.Memory.Heap.{allocate_heap, free_heap, maximum_free_size, total_free_size}
use psprism.Kernel.Memory.VariablePool.{VariablePool, allocate, free}

unfoldable pub sce_kernel_alloc_partition_memory : Kernel → State → Kernel × State
unfolding allocate_heap allocate_uid emplace
sce_kernel_alloc_partition_memory kernel state =
    let size = state.gpr 7 in
    let (address, heap) = allocate_heap kernel.heap size 64 in
    let (uid, kernel') = allocate_uid (record kernel { heap = heap }) in
    let block : MemoryBlock = record { address = address; size = size } in
    if address == 0 then (record kernel { heap = heap }, returns state out_of_memory) else (
      record kernel' { memory_blocks = emplace uid block kernel'.memory_blocks },
      returns state uid,
    )

unfoldable pub sce_kernel_free_partition_memory : Sorting → Kernel → State → Kernel × State
unfolding find erase free_heap
sce_kernel_free_partition_memory sorting kernel state =
    elim (find (state.gpr 4) kernel.memory_blocks) [
      | none ↦ (kernel, returns state unimplemented)
      | some block ↦ (
        record kernel {
          heap = free_heap sorting kernel.heap block.address block.size;
          memory_blocks = erase (state.gpr 4) kernel.memory_blocks;
        },
        returns state 0,
      )
    ]

unfoldable pub sce_kernel_total_free_mem_size : Kernel → State → State
unfolding total_free_size
sce_kernel_total_free_mem_size kernel state = returns state (total_free_size kernel.heap)

unfoldable pub sce_kernel_max_free_mem_size : Kernel → State → State
unfolding maximum_free_size
sce_kernel_max_free_mem_size kernel state = returns state (maximum_free_size kernel.heap)

unfoldable pub sce_kernel_create_vpl : Kernel → State → Kernel × State
unfolding allocate_heap allocate_uid emplace
sce_kernel_create_vpl kernel state =
    let size = state.gpr 7 in
    let (address, heap) = allocate_heap kernel.heap size 8 in
    let (uid, kernel') = allocate_uid (record kernel { heap = heap }) in
    let backing : MemoryBlock = record { address = address; size = size } in
    let pool : VariablePool = record {
      backing = backing;
      available = backing ∷ [];
      allocated = [];
    } in
    if size == 0
    then (kernel, returns state out_of_memory)
    else if address == 0
    then (record kernel { heap = heap }, returns state out_of_memory)
    else (
      record kernel' { variable_pools = emplace uid pool kernel'.variable_pools },
      returns state uid,
    )

unfoldable pub sce_kernel_delete_vpl : Sorting → Kernel → State → Kernel × State
unfolding find erase free_heap
sce_kernel_delete_vpl sorting kernel state = elim (find (state.gpr 4) kernel.variable_pools) [
  | none ↦ (kernel, state)
  | some pool ↦ (
    record kernel {
      heap = free_heap sorting kernel.heap pool.backing.address pool.backing.size;
      variable_pools = erase (state.gpr 4) kernel.variable_pools;
    },
    returns state 0,
  )
]

-- `if (auto* output = guest_pointer<std::uint32_t>(state, at)) *output = value;`
unfoldable pub put_output : State → ℕ → ℕ → Option State
unfolding mapped_address write_at
put_output state at value = elim (mapped_address state at 4) [
  | none ↦ some state
  | some p ↦ write_at state p 4 value
]

-- What sceKernelTryAllocateVpl, and sceKernelAllocateVpl in one round of its loop, do with the pool.
unfoldable pub try_allocate : Kernel → State → VariablePool → Option (Kernel × State)
unfolding allocate update put_output
try_allocate kernel state pool =
    let (address, pool') = allocate pool (align_up (state.gpr 5) 8) in
    let kernel' : Kernel = record kernel {
      variable_pools = update (state.gpr 4) pool' kernel.variable_pools;
    } in
    if address == 0
    then some (kernel', returns state out_of_memory)
    else elim (put_output state (state.gpr 6) address) [
      | none ↦ none
      | some state' ↦ some (kernel', returns state' 0)
    ]

unfoldable pub sce_kernel_try_allocate_vpl : Kernel → State → Option (Kernel × State)
unfolding find try_allocate
sce_kernel_try_allocate_vpl kernel state = elim (find (state.gpr 4) kernel.variable_pools) [
  | none ↦ some (kernel, state)
  | some pool ↦ try_allocate kernel state pool
]

-- The uid of a pool whose address is not allocated leaves the result register as it is.
unfoldable pub sce_kernel_free_vpl : Sorting → Kernel → State → Kernel × State
unfolding find update free
sce_kernel_free_vpl sorting kernel state = elim (find (state.gpr 4) kernel.variable_pools) [
  | none ↦ (kernel, state)
  | some pool ↦ elim (find (state.gpr 5) pool.allocated) [
    | none ↦ (kernel, state)
    | some size ↦ (
      record kernel {
        variable_pools =
            update (state.gpr 4) (free sorting pool (state.gpr 5)) kernel.variable_pools;
      },
      returns state 0,
    )
  ]
]

-- ===== src/Kernel/Memory/VariablePool.antt =====
-- Variable pools: sceKernelTryAllocateVpl.cpp, sceKernelAllocateVpl.cpp, sceKernelFreeVpl.cpp and the
-- pool of runtime.cpp. `allocated` is a table from addresses to sizes.
use psprism.Base.{ℕ, ◌+◌, ◌-◌, ltb, ◌==◌, if◌then◌else◌, List, [], ◌∷◌, ◌++◌}
use psprism.Base.{Option, none, some, u32}
use psprism.Base.Sorting.{Sorting}
use psprism.Kernel.Table.{find, emplace, erase}
use psprism.Kernel.Memory.Blocks.{MemoryBlock, coalesce, sort_blocks}

pub record VariablePool : Type 0 where
  pub backing : MemoryBlock
  pub available : List MemoryBlock
  pub allocated : List (ℕ × ℕ)

-- The loop of the lambda `allocate`: the first block that is large enough gives up its beginning.
unfoldable pub first_fit : ℕ → List MemoryBlock → Option (ℕ × List MemoryBlock)
first_fit requested [] = none
first_fit requested (block ∷ blocks) =
    let later : Option (ℕ × List MemoryBlock) = elim (first_fit requested blocks) [
      | none ↦ none
      | some (address, blocks') ↦ some (address, block ∷ blocks')
    ] in
    let rest : MemoryBlock = record {
      address = u32 (block.address + requested);
      size = block.size - requested;
    } in
    if ltb block.size requested
    then later
    else some (block.address, if rest.size == 0 then blocks else rest ∷ blocks)

-- The lambda `allocate`; address 0 is its failure.
unfoldable pub allocate : VariablePool → ℕ → ℕ × VariablePool
unfolding first_fit emplace
allocate pool requested = elim (first_fit requested pool.available) [
  | none ↦ (0, pool)
  | some (address, available) ↦ (
    address,
    record pool { available = available; allocated = emplace address requested pool.allocated },
  )
]

-- The locked part of sceKernelFreeVpl; an address that is not allocated changes nothing.
unfoldable pub free : Sorting → VariablePool → ℕ → VariablePool
unfolding find erase coalesce
free sorting pool address = elim (find address pool.allocated) [
  | none ↦ pool
  | some size ↦ record pool {
    available =
        coalesce
          (sort_blocks sorting (pool.available ++ record { address = address; size = size } ∷ []));
    allocated = erase address pool.allocated;
  }
]

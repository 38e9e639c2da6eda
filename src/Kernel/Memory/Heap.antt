-- ===== src/Kernel/Memory/Heap.antt =====
-- The guest heap of runtime.cpp: `allocate_heap`, `free_heap`, `allocate_stack`, and the sizes of
-- memory_state.hpp. The heap grows up from `heap_cursor`, the stacks grow down from `stack_cursor`;
-- both are offsets from `memory_base`, a free block has its guest address.
use psprism.Base.{ℕ, ◌+◌, ◌-◌, ◌^◌, max, Bool, ◌||◌, ltb, ◌==◌, if◌then◌else◌}
use psprism.Base.{List, [], ◌∷◌, ◌++◌, Option, none, some, u32}
use psprism.Base.Sorting.{Sorting}
use psprism.Kernel.Memory.Blocks.{MemoryBlock, align_up, coalesce, sort_blocks}

pub record Heap : Type 0 where
  pub memory_base : ℕ
  pub heap_cursor : ℕ
  pub stack_cursor : ℕ
  pub free_heap_blocks : List MemoryBlock

-- `address < block.address || address - block.address > block.size || ...`
abbrev pub is_too_small : ℕ → ℕ → MemoryBlock → Bool
is_too_small size address block =
    ltb address block.address
    || ltb block.size (address - block.address)
    || ltb (block.size - (address - block.address)) size

-- What is left of a block before `address` and from `end` on.
unfoldable pub remnants : MemoryBlock → ℕ → ℕ → List MemoryBlock
remnants block address end =
    let block_end = u32 (block.address + block.size) in
    let before : MemoryBlock = record { address = block.address; size = address - block.address } in
    let after : MemoryBlock = record { address = end; size = block_end - end } in
    (if ltb block.address address then before ∷ [] else [])
    ++ (if ltb end block_end then after ∷ [] else [])

-- The loop of `allocate_heap`: the address, the other blocks, and what is pushed after them.
unfoldable pub heap_fit :
    ℕ → ℕ → List MemoryBlock → Option (ℕ × List MemoryBlock × List MemoryBlock)
unfolding remnants
heap_fit size alignment [] = none
heap_fit size alignment (block ∷ blocks) =
    let address = align_up block.address alignment in
    let later : Option (ℕ × List MemoryBlock × List MemoryBlock) =
      elim (heap_fit size alignment blocks) [
        | none ↦ none
        | some (found, others, pushed) ↦ some (found, block ∷ others, pushed)
      ] in
    if is_too_small size address block
    then later
    else some (address, blocks, remnants block address (u32 (address + size)))

-- 0 is a failure.
unfoldable pub allocate_heap : Heap → ℕ → ℕ → ℕ × Heap
unfolding heap_fit
allocate_heap heap size alignment = elim (heap_fit size alignment heap.free_heap_blocks) [
  | some (address, others, pushed) ↦ (address, record heap { free_heap_blocks = others ++ pushed })
  | none ↦
      let address = align_up heap.heap_cursor alignment in
      if ltb heap.stack_cursor size || ltb (heap.stack_cursor - size) address
      then (0, heap)
      else (u32 (heap.memory_base + address), record heap { heap_cursor = u32 (address + size) })
]

unfoldable pub free_heap : Sorting → Heap → ℕ → ℕ → Heap
unfolding coalesce
free_heap sorting heap address size =
    let block : MemoryBlock = record { address = address; size = size } in
    if address == 0 || size == 0 then heap else record heap {
      free_heap_blocks = coalesce (sort_blocks sorting (heap.free_heap_blocks ++ block ∷ []));
    }

unfoldable pub allocate_stack : Heap → ℕ → ℕ × Heap
allocate_stack heap requested =
    let size = align_up requested 64 in
    let cursor = heap.stack_cursor - size in
    if ltb heap.stack_cursor size || ltb cursor heap.heap_cursor
    then (0, heap)
    else (u32 (heap.memory_base + cursor), record heap { stack_cursor = cursor })

unfoldable pub largest_block : ℕ → List MemoryBlock → ℕ
largest_block largest [] = largest
largest_block largest (block ∷ blocks) = largest_block (max largest block.size) blocks

unfoldable pub total_size : List MemoryBlock → ℕ
total_size [] = 0
total_size (block ∷ blocks) = block.size + total_size blocks

unfoldable pub maximum_free_size : Heap → ℕ
unfolding largest_block
maximum_free_size heap =
    largest_block
      (if ltb heap.heap_cursor heap.stack_cursor then heap.stack_cursor - heap.heap_cursor else 0)
      heap.free_heap_blocks

-- The sum is taken in 64 bits, which a list of blocks in memory does not exceed.
unfoldable pub total_free_size : Heap → ℕ
unfolding total_size
total_free_size heap =
    let total =
      (if ltb heap.heap_cursor heap.stack_cursor then heap.stack_cursor - heap.heap_cursor else 0)
      + total_size heap.free_heap_blocks in
    if ltb (2 ^ 32 - 1) total then 2 ^ 32 - 1 else total

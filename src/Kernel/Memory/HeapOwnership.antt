-- ===== src/Kernel/Memory/HeapOwnership.antt =====
-- The heap hands out free memory, and only once.
use psprism.Base.{ℕ, ◌+◌, ◌-◌, ◌^◌, ◌≤◌, ◌<◌, ◌≡◌, ◌≢◌, ◌⊎◌, refl, subst, arith, false}
use psprism.Base.{
  ◌&&◌, ◌||◌, ltb, leb, ◌==◌, if◌then◌else◌, [], ◌∷◌, ◌++◌, u32, Bool-cases, inl, inr,
}
use psprism.Base.{Option-cases}
use psprism.Base.Bits.{bit_and_field}
use psprism.Base.Sorting.{Sorting, count, count-append}
use psprism.Kernel.Memory.Blocks.{
  MemoryBlock, align_up, sort_blocks, spans, is_unfit, count-coalesce,
}
use psprism.Kernel.Memory.Heap.{Heap, heap_fit, allocate_heap, free_heap}
use psprism.Kernel.Memory.HeapFit.{block_at, heap_fit-count}

-- How often a byte is free: in the free blocks, and between the cursors.
abbrev pub free_count : Heap → ℕ → ℕ
free_count heap byte =
    count (spans byte) heap.free_heap_blocks
    + (if leb (heap.memory_base + heap.heap_cursor) byte
          && ltb byte (heap.memory_base + heap.stack_cursor)
        then 1
        else 0)

pub record IsHeap (heap : Heap) : Type 0 where
  pub blocks_fit : count is_unfit heap.free_heap_blocks ≡ 0
  pub stack_fits : heap.memory_base + heap.stack_cursor + 63 < 2 ^ 32
  pub cursors : heap.heap_cursor ≤ heap.stack_cursor

-- The two alignments that the stubs ask for.
align_up_bounds :
    (value alignment : ℕ)
    → (alignment ≡ 8) ⊎ (alignment ≡ 64)
    → value + 63 < 2 ^ 32
    → (value ≤ align_up value alignment) × (align_up value alignment < value + alignment)
unfolding align_up
align_up_bounds value alignment (inl e) small =
    rw e (ground (arith, bit_and_field 3 29 (u32 (value + 7))))
align_up_bounds value alignment (inr e) small =
    rw e (ground (arith, bit_and_field 6 26 (u32 (value + 63))))

module _ (heap : Heap) (is_heap : IsHeap heap) where
  allocate_heap_lem :
      (size alignment : ℕ)
      → (alignment ≡ 8) ⊎ (alignment ≡ 64)
      → (let (address, heap') = allocate_heap heap size alignment in
          IsHeap heap'
          × (address ≢ 0
              → (byte : ℕ)
              → free_count heap' byte + (if spans byte (block_at address size) then 1 else 0)
                ≤ free_count heap byte))
  unfolding allocate_heap
  allocate_heap_lem size alignment is_one =
      elim (Option-cases (heap_fit size alignment heap.free_heap_blocks)) [
        | inl e ↦
            let aligned =
              align_up_bounds heap.heap_cursor alignment is_one
                (ground (arith, is_heap.stack_fits, is_heap.cursors)) in
            elim (Bool-cases (
              ltb heap.stack_cursor size
              || ltb (heap.stack_cursor - size) (align_up heap.heap_cursor alignment))) [
                | inl f ↦ rw (e, allocate_heap, f) (is_heap, λ nonzero byte. absurd (nonzero refl))
                | inr f ↦
                    rw (e, allocate_heap, f)
                      (
                        record {
                          blocks_fit = is_heap.blocks_fit;
                          stack_fits = is_heap.stack_fits;
                          cursors = ground (arith, is_heap.stack_fits);
                        },
                        λ nonzero byte.
                            ground (arith, aligned, is_heap.stack_fits, is_heap.cursors),
                      )
              ]
        | inr ((address, others, pushed), e) ↦
            let counts = λ (byte : ℕ).
              heap_fit-count byte size alignment heap.free_heap_blocks is_heap.blocks_fit e in
            rw (e, allocate_heap)
              (
                record {
                  blocks_fit = ground (arith, (counts 0).1, count-append is_unfit others pushed);
                  stack_fits = is_heap.stack_fits;
                  cursors = is_heap.cursors;
                },
                λ nonzero byte.
                    ground (arith, (counts byte).0, count-append (spans byte) others pushed),
              )
      ]

  -- What `allocate_heap` returns in a well-formed heap is free memory of the heap, and it is
  -- not free any more: for a result that is not 0, each byte is free in the new heap and in the
  -- returned block together at most as often as it was free before. The alignment is one that
  -- the stubs ask for.
  pub allocate_heap-free_count :
      (size alignment : ℕ)
      → (alignment ≡ 8) ⊎ (alignment ≡ 64)
      → {address : ℕ} {heap' : Heap} → allocate_heap heap size alignment ≡ (address, heap')
      → address ≢ 0
      → (byte : ℕ)
      → free_count heap' byte + (if spans byte (block_at address size) then 1 else 0)
        ≤ free_count heap byte
  allocate_heap-free_count size alignment is_one h nonzero byte =
      let result = allocate_heap_lem size alignment is_one in
      subst
        (λ (r : ℕ × Heap).
          r.0 ≢ 0
          → (byte : ℕ)
          → free_count r.1 byte + (if spans byte (block_at r.0 size) then 1 else 0)
            ≤ free_count heap byte)
        h result.1 nonzero byte

  -- `allocate_heap` keeps the heap well formed, also when there is no memory.
  pub allocate_heap-IsHeap :
      (size alignment : ℕ)
      → (alignment ≡ 8) ⊎ (alignment ≡ 64)
      → IsHeap (allocate_heap heap size alignment).1
  allocate_heap-IsHeap size alignment is_one = (allocate_heap_lem size alignment is_one).0

  -- In a well-formed heap `free_heap` gives back exactly the block: each byte is free as often
  -- as before, and once more in the block. The heap stays well formed. The block is not empty,
  -- not at 0, and ends in the address space.
  pub free_heap-free_count :
      (sorting : Sorting) (address size : ℕ)
      → address ≢ 0
      → size ≢ 0
      → address + size < 2 ^ 32
      → (byte : ℕ)
      → (free_count (free_heap sorting heap address size) byte
          ≡ free_count heap byte + (if spans byte (block_at address size) then 1 else 0))
        × IsHeap (free_heap sorting heap address size)
  unfolding free_heap count
  free_heap-free_count sorting address size nonzero some_bytes small byte =
      let blocks = heap.free_heap_blocks ++ block_at address size ∷ [] in
      let sorted_fit : count is_unfit (sort_blocks sorting blocks) ≡ 0 = ground (
        arith,
        is_heap.blocks_fit,
        count-append is_unfit heap.free_heap_blocks (block_at address size ∷ []),
        sorting.same MemoryBlock (λ b. b.address) blocks is_unfit,
      ) in
      let is_one : (address == 0 || size == 0) ≡ false = ground arith in
      rw (is_one, free_heap)
        (
          ground (
            arith,
            count-coalesce byte (sort_blocks sorting blocks) sorted_fit,
            sorting.same MemoryBlock (λ b. b.address) blocks (spans byte),
            count-append (spans byte) heap.free_heap_blocks (block_at address size ∷ []),
          ),
          record {
            blocks_fit = (count-coalesce 0 (sort_blocks sorting blocks) sorted_fit).1;
            stack_fits = is_heap.stack_fits;
            cursors = is_heap.cursors;
          },
        )

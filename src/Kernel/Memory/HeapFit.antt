-- ===== src/Kernel/Memory/HeapFit.antt =====
-- The loop of `allocate_heap` cuts a block in pieces and loses no byte.
use psprism.Base.{ℕ, ◌+◌, ◌-◌, ◌^◌, ◌≤◌, ◌<◌, ◌≡◌, arith, false}
use psprism.Base.{ltb, if◌then◌else◌, List, [], ◌∷◌, u32, Bool-cases, inl, inr}
use psprism.Base.{some, Option-cases}
use psprism.Base.Sorting.{count}
use psprism.Kernel.Memory.Blocks.{MemoryBlock, align_up, spans, is_unfit}
use psprism.Kernel.Memory.Heap.{is_too_small, remnants, heap_fit}

abbrev pub block_at : ℕ → ℕ → MemoryBlock
block_at address size = record { address = address; size = size }

-- A block cut at two places.
cut-count :
    (byte a n address end : ℕ)
    → a ≤ address
    → address ≤ end
    → end ≤ a + n
    → (if ltb a address then (if spans byte (block_at a (address - a)) then 1 else 0) else 0)
        + (if ltb end (a + n)
            then (if spans byte (block_at end (a + n - end)) then 1 else 0)
            else 0)
        + (if spans byte (block_at address (end - address)) then 1 else 0)
      ≡ (if spans byte (block_at a n) then 1 else 0)
cut-count byte a n address end p q r = ground arith

module _ (block : MemoryBlock) (address size : ℕ) (fit : is_unfit block ≡ false)
    (room : is_too_small size address block ≡ false) where
  block_end : u32 (block.address + block.size) ≡ block.address + block.size
  block_end = ground arith

  within :
      (block.address ≤ address)
      × (address + size ≤ block.address + block.size)
      × (block.address + block.size < 2 ^ 32)
  within = ground arith

  remnants-count :
      (byte : ℕ)
      → count (spans byte) (remnants block address (u32 (address + size)))
          + (if spans byte (block_at address size) then 1 else 0)
        ≡ (if spans byte block then 1 else 0)
  unfolding remnants count
  remnants-count byte =
      let (above, below, top) = within in
      let end_is : u32 (address + size) ≡ address + size = ground arith in
      rw (end_is, block_end)
        (ground (
          arith,
          cut-count byte block.address block.size address (address + size) (ground arith)
              (ground arith) (ground arith),
        ))

  remnants_fit : count is_unfit (remnants block address (u32 (address + size))) ≡ 0
  unfolding remnants count
  remnants_fit =
      let (above, below, top) = within in
      let end_is : u32 (address + size) ≡ address + size = ground arith in
      rw (end_is, block_end) (ground arith)

module _ (byte size alignment : ℕ) where
  pub heap_fit-count :
      (blocks : List MemoryBlock) {address : ℕ} {others pushed : List MemoryBlock}
      → count is_unfit blocks ≡ 0
      → heap_fit size alignment blocks ≡ some (address, others, pushed)
      → (count (spans byte) others
            + count (spans byte) pushed
            + (if spans byte (block_at address size) then 1 else 0)
          ≡ count (spans byte) blocks)
        × (count is_unfit others + count is_unfit pushed ≡ 0)
  unfolding heap_fit count
  heap_fit-count [] fit h = absurd (ground arith)
  heap_fit-count (block ∷ blocks) {address = address} {others = others} {pushed = pushed} fit h =
      elim (Bool-cases (is_too_small size (align_up block.address alignment) block)) [
        | inl e ↦ elim (Option-cases (heap_fit size alignment blocks)) [
          | inl f ↦ absurd (ground (arith, e, f, h))
          | inr ((found, others', pushed'), f) ↦
              ground (arith, e, f, h, heap_fit-count blocks (ground arith) f)
        ]
        | inr e ↦ ground (
          arith,
          e,
          h,
          remnants-count block (align_up block.address alignment) size (ground arith) e byte,
          remnants_fit block (align_up block.address alignment) size (ground arith) e,
        )
      ]

-- ===== src/Kernel/Memory/Blocks.antt =====
-- Free memory as a list of blocks: runtime.cpp, `align_up`, `MemoryBlock`, and the loop that joins
-- neighbours, which `free_heap` and sceKernelFreeVpl both have.
use psprism.Base.{ℕ, ◌+◌, ◌-◌, ◌^◌, ◌≡◌, refl, arith, Bool}
use psprism.Base.{
  ◌&&◌, ◌||◌, ltb, leb, ◌==◌, if◌then◌else◌, List, [], ◌∷◌, bit_and, u32, Bool-cases, inl, inr,
}
use psprism.Base.Sorting.{Sorting, count}

pub record MemoryBlock : Type 0 where
  pub address : ℕ
  pub size : ℕ

-- `(value + alignment - 1) & ~(alignment - 1)`
unfoldable pub align_up : ℕ → ℕ → ℕ
align_up value alignment = bit_and (u32 (value + (alignment - 1))) (0xffffffff - (alignment - 1))

-- The loop over sorted blocks, at the block `previous`.
unfoldable pub coalesce_after : MemoryBlock → List MemoryBlock → List MemoryBlock
coalesce_after previous [] = previous ∷ []
coalesce_after previous (current ∷ blocks) =
    let joined =
      coalesce_after (record previous { size = u32 (previous.size + current.size) }) blocks in
    let apart = previous ∷ coalesce_after current blocks in
    if u32 (previous.address + previous.size) == current.address then joined else apart

unfoldable pub coalesce : List MemoryBlock → List MemoryBlock
unfolding coalesce_after
coalesce [] = []
coalesce (block ∷ blocks) = coalesce_after block blocks

abbrev pub sort_blocks : Sorting → List MemoryBlock → List MemoryBlock
sort_blocks sorting = sorting.sort MemoryBlock (λ b. b.address)

-- Is a byte in a block?
abbrev pub spans : ℕ → MemoryBlock → Bool
spans byte b = leb b.address byte && ltb byte (b.address + b.size)

-- A block that is empty, or reaches the end of the address space.
abbrev pub is_unfit : MemoryBlock → Bool
is_unfit b = b.size == 0 || ltb (2 ^ 32 - 1) (b.address + b.size)

module _ (byte : ℕ) where
  count-coalesce_after :
      (previous : MemoryBlock) (blocks : List MemoryBlock)
      → count is_unfit (previous ∷ blocks) ≡ 0
      → (count (spans byte) (coalesce_after previous blocks)
          ≡ count (spans byte) (previous ∷ blocks))
        × (count is_unfit (coalesce_after previous blocks) ≡ 0)
  unfolding coalesce_after count
  count-coalesce_after previous [] fit = (refl, fit)
  count-coalesce_after previous (current ∷ blocks) fit =
      elim (Bool-cases (u32 (previous.address + previous.size) == current.address)) [
        | inl e ↦ rw e (
            ground (
              arith,
              count-coalesce_after (record previous { size = u32 (previous.size + current.size) })
                  blocks (ground arith),
            ))
        | inr e ↦ rw e (ground (arith, count-coalesce_after current blocks (ground arith)))
      ]

  -- Joining neighbours keeps the bytes that are in some block, each as often.
  pub count-coalesce :
      (blocks : List MemoryBlock)
      → count is_unfit blocks ≡ 0
      → (count (spans byte) (coalesce blocks) ≡ count (spans byte) blocks)
        × (count is_unfit (coalesce blocks) ≡ 0)
  unfolding coalesce
  count-coalesce [] fit = (refl, fit)
  count-coalesce (block ∷ blocks) fit = count-coalesce_after block blocks fit

-- ===== src/Kernel/Memory/Ownership.antt =====
-- A variable pool owns its memory: every byte of the backing block is in exactly one free or
-- allocated block.
use psprism.Base.{ℕ, ◌+◌, ◌^◌, ◌<◌, ◌≡◌, refl, ◌∙◌, arith, Bool}
use psprism.Base.{ltb, ◌==◌, if◌then◌else◌, List, [], ◌∷◌, ◌++◌, Bool-cases, inl, inr}
use psprism.Base.{none, some, Option-cases}
use psprism.Base.Sorting.{Sorting, count, count-append}
use psprism.Kernel.Table.{find, emplace, erase}
use psprism.Kernel.Memory.Blocks.{
  MemoryBlock, coalesce, sort_blocks, spans, is_unfit, count-coalesce,
}
use psprism.Kernel.Memory.VariablePool.{VariablePool, first_fit, allocate, free}

-- An entry of `allocated` as a block.
abbrev pub block_of : ℕ × ℕ → MemoryBlock
block_of (address, size) = record { address = address; size = size }

abbrev pub spans_entry : ℕ → ℕ × ℕ → Bool
spans_entry byte entry = spans byte (block_of entry)

abbrev pub is_unfit_entry : ℕ × ℕ → Bool
is_unfit_entry entry = is_unfit (block_of entry)

pub record IsOwned (pool : VariablePool) : Type 0 where
  pub available_fit : count is_unfit pool.available ≡ 0
  pub allocated_fit : count is_unfit_entry pool.allocated ≡ 0
  pub once :
      (byte : ℕ)
      → count (spans byte) pool.available + count (spans_entry byte) pool.allocated
        ≡ (if spans byte pool.backing then 1 else 0)

module _ (requested : ℕ) (some_bytes : 0 < requested) where
  first_fit-count :
      (byte : ℕ) (blocks : List MemoryBlock) {address : ℕ} {blocks' : List MemoryBlock}
      → count is_unfit blocks ≡ 0
      → first_fit requested blocks ≡ some (address, blocks')
      → (count (spans byte) blocks' + (if spans_entry byte (address, requested) then 1 else 0)
          ≡ count (spans byte) blocks)
        × (count is_unfit blocks' ≡ 0)
        × (address + requested < 2 ^ 32)
  unfolding first_fit count
  first_fit-count byte [] fit h = absurd (ground arith)
  first_fit-count byte (block ∷ blocks) {address = address} {blocks' = blocks'} fit h =
      elim (Bool-cases (ltb block.size requested)) [
        | inl e ↦ elim (Option-cases (first_fit requested blocks)) [
          | inl f ↦ absurd (ground (arith, e, f, h))
          | inr ((address', later), f) ↦
              ground (arith, e, f, h, first_fit-count byte blocks (ground arith) f)
        ]
        | inr e ↦ ground (arith, e, h)
      ]

find-none :
    (address : ℕ) (entries : List (ℕ × ℕ))
    → count is_unfit_entry entries ≡ 0
    → count (spans_entry address) entries ≡ 0
    → find address entries ≡ none
unfolding find count
find-none address [] fit free = refl
find-none address ((key, size) ∷ entries) fit free =
    ground (arith, find-none address entries (ground arith) (ground arith))

count-erase :
    (q : ℕ × ℕ → Bool) (address size : ℕ) (entries : List (ℕ × ℕ))
    → find address entries ≡ some size
    → count q (erase address entries) + (if q (address, size) then 1 else 0) ≡ count q entries
unfolding find erase count
count-erase q address size [] h = absurd (ground arith)
count-erase q address size ((key, other) ∷ entries) h = elim (Bool-cases (key == address)) [
  | inl e ↦
      let same : key ≡ address = ground arith in
      let size_is : other ≡ size = ground (arith, e, h) in rw (e, same, size_is) (omega arith)
  | inr e ↦ rw e (ground (arith, count-erase q address size entries (ground (arith, e, h))))
]

module _ (pool : VariablePool) (owned : IsOwned pool) where
  -- In a pool where each byte of the backing block is in exactly one free or allocated block, a
  -- request of at least one byte that finds a block gets an address that was not allocated: the
  -- new block is put before the allocated ones, the free ones are what the search leaves, and
  -- the pool stays one of this kind.
  pub allocate-IsOwned :
      (requested : ℕ) {address : ℕ} {available : List MemoryBlock}
      → 0 < requested
      → first_fit requested pool.available ≡ some (address, available)
      → (allocate pool requested ≡ (
        address,
        record pool { available = available; allocated = (address, requested) ∷ pool.allocated },
      ))
        × IsOwned (allocate pool requested).1
  unfolding allocate count
  allocate-IsOwned requested {address = address} {available = available} some_bytes h =
      let counts = λ (byte : ℕ).
        first_fit-count requested some_bytes byte pool.available owned.available_fit h in
      let fresh : find address pool.allocated ≡ none =
        find-none address pool.allocated owned.allocated_fit
          (ground (arith, counts address, owned.once address)) in
      let result : allocate pool requested ≡ (
        address,
        record pool { available = available; allocated = (address, requested) ∷ pool.allocated },
      ) =
        rw (h, allocate) (rw (fresh, emplace) refl) in
      (
        result,
        rw result (record {
          available_fit = (counts 0).1;
          allocated_fit = ground (arith, counts 0, owned.allocated_fit);
          once = λ byte. ground (arith, counts byte, owned.once byte);
        }),
      )

  freed-count :
      (sorting : Sorting) (address size : ℕ) (byte : ℕ)
      → find address pool.allocated ≡ some size
      → (let blocks =
            sort_blocks sorting
              (pool.available ++ record { address = address; size = size } ∷ []) in
          (count (spans byte) (coalesce blocks)
            ≡ count (spans byte) pool.available
              + (if spans_entry byte (address, size) then 1 else 0))
          × (count is_unfit (coalesce blocks) ≡ 0))
        × (count is_unfit_entry (erase address pool.allocated) ≡ 0)
  unfolding count
  freed-count sorting address size byte h =
      let block : MemoryBlock = record { address = address; size = size } in
      let blocks = pool.available ++ block ∷ [] in
      let fit = count-erase is_unfit_entry address size pool.allocated h in
      let sorted_fit : count is_unfit (sort_blocks sorting blocks) ≡ 0 = ground (
        arith,
        fit,
        owned.allocated_fit,
        owned.available_fit,
        count-append is_unfit pool.available (block ∷ []),
        sorting.same MemoryBlock (λ b. b.address) blocks is_unfit,
      ) in
      let joined = count-coalesce byte (sort_blocks sorting blocks) sorted_fit in
      (
        (
          joined.0
              ∙ sorting.same MemoryBlock (λ b. b.address) blocks (spans byte)
              ∙ count-append (spans byte) pool.available (block ∷ [])
              ∙ ground arith,
          joined.1,
        ),
        ground (arith, fit, owned.allocated_fit),
      )

  -- Freeing keeps the pool owned, whether or not the address is allocated: the block goes back to
  -- the free ones.
  pub free-IsOwned : (sorting : Sorting) (address : ℕ) → IsOwned (free sorting pool address)
  unfolding free
  free-IsOwned sorting address = elim (Option-cases (find address pool.allocated)) [
    | inl e ↦ rw (e, free) owned
    | inr (size, e) ↦
        let counts = λ (byte : ℕ). freed-count sorting address size byte e in
        rw (e, free)
          (record {
            available_fit = (counts 0).0.1;
            allocated_fit = (counts 0).1;
            once = λ byte. omega (
              arith,
              (counts byte).0.0,
              owned.once byte,
              count-erase (spans_entry byte) address size pool.allocated e,
            );
          })
  ]

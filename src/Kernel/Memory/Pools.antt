-- ===== src/Kernel/Memory/Pools.antt =====
-- The stubs of variable pools keep every pool in order.
use psprism.Base.{ℕ, ◌<◌, ◌≡◌, refl, sym, subst, ◌∙◌, arith}
use psprism.Base.{◌==◌, List, Bool-cases, Option-cases, inl, inr, some}
use psprism.Base.Sorting.{Sorting}
use psprism.Cpu.State.{State}
use psprism.Kernel.Table.{find, update, find-update}
use psprism.Kernel.Objects.{Kernel}
use psprism.Kernel.Memory.Blocks.{align_up}
use psprism.Kernel.Memory.VariablePool.{VariablePool, first_fit, allocate, free}
use psprism.Kernel.Memory.Ownership.{IsOwned, allocate-IsOwned, free-IsOwned}
use psprism.Kernel.Memory.Handlers.{
  put_output, try_allocate, sce_kernel_try_allocate_vpl, sce_kernel_free_vpl,
}

pub record ArePools (pools : List (ℕ × VariablePool)) : Type 0 where
  pub owned : (uid : ℕ) (pool : VariablePool) → find uid pools ≡ some pool → IsOwned pool

update-ArePools :
    (uid : ℕ) (pools : List (ℕ × VariablePool)) {old : VariablePool} (pool : VariablePool)
    → ArePools pools
    → find uid pools ≡ some old
    → IsOwned pool
    → ArePools (update uid pool pools)
update-ArePools uid pools {old = old} pool are there is_owned = record {
  owned = λ other found h. elim (Bool-cases (uid == other)) [
    | inl e ↦
        subst IsOwned {x = pool}
          (ground (arith, e, h, find-update uid other pool pools {b = old} there)) is_owned
    | inr e ↦
        are.owned other found
          (ground (arith, e, h, find-update uid other pool pools {b = old} there))
  ];
}

allocate_pool-IsOwned :
    (pool : VariablePool) (requested : ℕ)
    → IsOwned pool
    → 0 < requested
    → IsOwned (allocate pool requested).1
unfolding allocate
allocate_pool-IsOwned pool requested owned some_bytes =
    elim (Option-cases (first_fit requested pool.available)) [
      | inl e ↦ rw (e, allocate) owned
      | inr ((address, available), e) ↦ (allocate-IsOwned pool owned requested some_bytes e).1
    ]

try_allocate-pools :
    (kernel : Kernel) (state : State) (pool : VariablePool) {kernel' : Kernel} {state' : State}
    → try_allocate kernel state pool ≡ some (kernel', state')
    → kernel'.variable_pools
      ≡ update (state.gpr 4) (allocate pool (align_up (state.gpr 5) 8)).1 kernel.variable_pools
unfolding try_allocate
try_allocate-pools kernel state pool h =
    let (address, pool') = allocate pool (align_up (state.gpr 5) 8) in
    elim (Bool-cases (address == 0)) [
      | inl e ↦ ground (arith, e, h)
      | inr e ↦ elim (Option-cases (put_output state (state.gpr 6) address)) [
        | inl f ↦ absurd (ground (arith, e, f, h))
        | inr (written, f) ↦ ground (arith, e, f, h)
      ]
    ]

-- sceKernelTryAllocateVpl keeps the ownership of every pool, that each byte of the backing block
-- is in exactly one free or allocated block, whether or not it finds the pool and the memory. The
-- request is not empty after it is rounded up, and the call returns.
pub sce_kernel_try_allocate_vpl-ArePools :
    (kernel : Kernel) (state : State) {kernel' : Kernel} {state' : State}
    → ArePools kernel.variable_pools
    → 0 < align_up (state.gpr 5) 8
    → sce_kernel_try_allocate_vpl kernel state ≡ some (kernel', state')
    → ArePools kernel'.variable_pools
unfolding sce_kernel_try_allocate_vpl try_allocate
sce_kernel_try_allocate_vpl-ArePools kernel state {kernel' = kernel'} {state' = state'} are
      some_bytes h =
    elim (Option-cases (find (state.gpr 4) kernel.variable_pools)) [
      | inl e ↦
          subst (λ (k : Kernel). ArePools k.variable_pools) {x = kernel} {y = kernel'}
            (ground (arith, e, h)) are
      | inr (pool, e) ↦
          let pool' = (allocate pool (align_up (state.gpr 5) 8)).1 in
          let pools = update (state.gpr 4) pool' kernel.variable_pools in
          let is_next : pools ≡ kernel'.variable_pools = sym (
            try_allocate-pools kernel state pool
              (sym (rw (e, sce_kernel_try_allocate_vpl) refl) ∙ h)) in
          subst ArePools {x = pools} is_next (
            update-ArePools (state.gpr 4) kernel.variable_pools pool' are e (
              allocate_pool-IsOwned pool (align_up (state.gpr 5) 8) (are.owned (state.gpr 4) pool e)
                some_bytes))
    ]

-- sceKernelFreeVpl keeps the ownership of every pool, that each byte of the backing block is in
-- exactly one free or allocated block, also when the pool is unknown or the address is not
-- allocated.
pub sce_kernel_free_vpl-ArePools :
    (sorting : Sorting) (kernel : Kernel) (state : State)
    → ArePools kernel.variable_pools
    → ArePools (sce_kernel_free_vpl sorting kernel state).0.variable_pools
unfolding sce_kernel_free_vpl
sce_kernel_free_vpl-ArePools sorting kernel state are =
    elim (Option-cases (find (state.gpr 4) kernel.variable_pools)) [
      | inl e ↦ rw (e, sce_kernel_free_vpl) are
      | inr (pool, e) ↦ elim (Option-cases (find (state.gpr 5) pool.allocated)) [
        | inl f ↦ rw (e, sce_kernel_free_vpl, f) are
        | inr (size, f) ↦
            rw (e, sce_kernel_free_vpl, f)
              (update-ArePools (state.gpr 4) kernel.variable_pools (free sorting pool (state.gpr 5))
                are e (free-IsOwned pool (are.owned (state.gpr 4) pool e) sorting (state.gpr 5)))
      ]
    ]

-- ===== src/Kernel/Memory.antt =====
-- Guest memory for the kernel: the heap of refract/src/runtime.cpp and the variable pools.
pub mod Blocks
pub mod Heap
pub mod HeapFit
pub mod HeapOwnership
pub mod VariablePool
pub mod Ownership
pub mod Handlers
pub mod Pools
pub mod FixedPool

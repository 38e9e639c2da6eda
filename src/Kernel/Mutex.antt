-- ===== src/Kernel/Mutex.antt =====
-- Recursive locks: sceKernelCreateMutex, sceKernelLockMutex, sceKernelUnlockMutex and
-- sceKernelDeleteMutex.
pub mod Operations
pub mod Exclusion

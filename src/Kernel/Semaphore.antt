-- ===== src/Kernel/Semaphore.antt =====
-- Counting semaphores with a queue of tickets.
pub mod Operations
pub mod Handlers
pub mod System
pub mod Fair
pub mod Keeps
pub mod Invariant
pub mod Order
pub mod Next
pub mod Progress

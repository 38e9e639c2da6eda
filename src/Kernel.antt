-- ===== src/Kernel.antt =====
-- The guest kernel's objects: refract/src/runtime.cpp and the stubs of refract/src/stubs/kernel, as
-- they are compiled for a host.
pub mod Table
pub mod Objects
pub mod Memory
pub mod Semaphore
pub mod Mailbox
pub mod Mutex
pub mod EventFlag
mod Tests

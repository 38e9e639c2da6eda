-- ===== src/Cpu/Laws.antt =====
-- What holds of the CPU model, by topic.
pub mod Support
pub mod Groups
pub mod Transfers
pub mod Flow
pub mod Executed
pub mod Step
pub mod Access
pub mod FastPath
pub mod LoadStore

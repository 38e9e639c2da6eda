-- ===== src/Analysis.antt =====
-- The control-flow analysis of the translator: src/emitter/analysis.cpp, and the helpers of
-- src/emitter/format.cpp that it uses.
pub mod Types
pub mod Text
pub mod Control
pub mod Entries
pub mod Growth
pub mod Pointers
pub mod Reached
pub mod Complete
pub mod Ends
pub mod Targets
pub mod Agreement
pub mod Functions
pub mod Starts
pub mod Discovered
pub mod Returns
mod Tests

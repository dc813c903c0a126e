-- ===== src/Memory.antt =====
-- src/memory_store.rs: `MemoryStore`.
pub mod State
pub mod Store
pub mod Cleanup
pub mod Cancellation
pub mod Index
pub mod Answers
pub mod Batches
pub mod Scan
pub mod Expiry
pub mod Saves
pub mod Outcomes
pub mod Revocation
pub mod Loads
pub mod Contract
pub mod View
pub mod Refinement
pub mod Progress
pub mod Ready
pub mod Client

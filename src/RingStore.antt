-- ===== src/RingStore.antt =====
-- The ring store of include/tfdb/ring_store.hpp and src/ring_store.cpp.
pub mod State
pub mod Media
pub mod Rotate
pub mod Emit
pub mod Append
pub mod Outcome
pub mod Consistent
pub mod Effects
pub mod Emitted
pub mod Rotated
pub mod Run
pub mod Admitted
pub mod Accepted
pub mod Invariant
pub mod Medium
pub mod Flushed
pub mod Safety
pub mod Written
pub mod Durable
pub mod Latch
pub mod Contract
pub mod Skew
pub mod Observe
pub mod Geometry
pub mod Formatter
pub mod Formatted
pub mod Reader
pub mod Opener

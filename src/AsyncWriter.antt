-- ===== src/AsyncWriter.antt =====
-- The asynchronous writer of include/tfdb/async_writer.hpp and src/async_writer.cpp.
pub mod State
pub mod Client
pub mod Thread
pub mod Steps
pub mod Order
pub mod Ordered
pub mod Barrier
pub mod Drained
pub mod Stored
pub mod Confirmed

-- ===== src/RingStore/Reader.antt =====
-- The reader of src/ring_store.cpp.
pub mod Reads
pub mod Ends
pub mod Features
pub mod Slots
pub mod Scan
pub mod Index
pub mod Block
pub mod Events
pub mod Query
pub mod Kept
pub mod Answers
pub mod Delivered
pub mod Chain
pub mod Scanned

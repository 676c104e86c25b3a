-- ===== src/RingStore/Opener.antt =====
-- `RingStore::open` of src/ring_store.cpp.
pub mod Headers
pub mod Damage
pub mod Strict
pub mod Recover
pub mod Assemble
pub mod Order
pub mod Recovered
pub mod Installed
pub mod Opened
pub mod Admits
pub mod Survives

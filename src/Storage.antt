-- ===== src/Storage.antt =====
-- The exact transfers of src/storage_posix.cpp over the `Storage` of include/tfdb/storage.hpp.
pub mod Exact
pub mod Memory
pub mod Counting
pub mod Image
pub mod Readback

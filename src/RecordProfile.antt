-- ===== src/RecordProfile.antt =====
-- src/record_profile.cpp and include/tfdb/record_profile.hpp: `FramedRecordV1`, an envelope of 32 bytes
-- around each record, and the queries of records.
pub mod Frame
pub mod Fields
pub mod RoundTrip
pub mod Append
pub mod Query
pub mod Selected

-- ===== src/Format/Partition.antt =====
-- `PartitionOptions` of include/tfdb/ring_store.hpp, `FeatureDescriptor`, `PartitionHeader` and
-- `encode_partition_header`. The decoder is in a child module.
pub mod Decode
pub mod Loads
pub mod RoundTrip
use tfdb.Prelude.{ℕ, ◌+◌, ◌-◌, ◌*◌, ◌%◌, ◌^◌, List, [], ◌∷◌, replicate, ℤ}
use tfdb.Bytes.{store, put16, put32, put64, puti64}
use tfdb.Format.{
  format_major, format_minor, partition_header_encoded_size, partition_footer_region_size,
  feature_descriptor_size, partition_magic, finish_crc,
}

-- `compression` is the number of a `CompressionId`.
pub record PartitionOptions : Type 0 where
  pub compression : ℕ
  pub compression_version : ℕ
  pub record_format_id : ℕ
  pub record_format_version : ℕ
  pub time_domain_id : ℕ
  pub allowed_backward_skew_ns : ℤ
  pub allowed_forward_step_ns : ℤ

pub record FeatureDescriptor : Type 0 where
  pub kind : ℕ
  pub flags : ℕ
  pub algorithm : ℕ
  pub version : ℕ
  pub config_offset : ℕ
  pub config_length : ℕ
  pub region_offset : ℕ
  pub region_length : ℕ

pub record PartitionHeader : Type 0 where
  pub volume_id_high : ℕ
  pub volume_id_low : ℕ
  pub generation : ℕ
  pub slot : ℕ
  pub created_time_ns : ℤ
  pub max_block_payload : ℕ
  pub persistence_quantum : ℕ
  pub options : PartitionOptions
  pub features : List FeatureDescriptor

abbrev pub feature_required : ℕ
feature_required = 1

abbrev pub feature_compression : ℕ
feature_compression = 1

abbrev pub feature_time_index : ℕ
feature_time_index = 2

abbrev pub feature_record_profile : ℕ
feature_record_profile = 3

abbrev pub feature_integrity : ℕ
feature_integrity = 4

abbrev pub integrity_crc32c : ℕ
integrity_crc32c = 1

abbrev pub time_index_min_max : ℕ
time_index_min_max = 1

abbrev feature : ℕ → ℕ → ℕ → ℕ → ℕ → ℕ → ℕ → ℕ → FeatureDescriptor
feature kind flags algorithm version config_offset config_length region_offset region_length =
    record {
      kind = kind;
      flags = flags;
      algorithm = algorithm;
      version = version;
      config_offset = config_offset;
      config_length = config_length;
      region_offset = region_offset;
      region_length = region_length;
    }

-- `partition_size - kPartitionFooterRegionSize - index_region_size`, in `uint64_t`
abbrev pub index_offset : ℕ → ℕ → ℕ
index_offset partition_size index_region_size =
    (partition_size + 2 ^ 65 - partition_footer_region_size - index_region_size) % 2 ^ 64

-- The descriptors that the encoder writes.
abbrev pub compression_descriptor : PartitionOptions → FeatureDescriptor
compression_descriptor o =
    feature feature_compression feature_required o.compression o.compression_version 0 0 0 0

abbrev pub time_index_descriptor : ℕ → ℕ → FeatureDescriptor
time_index_descriptor partition_size index_region_size =
    feature feature_time_index feature_required time_index_min_max 1 0 0
      (index_offset partition_size index_region_size) index_region_size

abbrev pub record_profile_descriptor : PartitionOptions → FeatureDescriptor
record_profile_descriptor o = feature feature_record_profile 0 0 o.record_format_version 512 8 0 0

abbrev pub integrity_descriptor : FeatureDescriptor
integrity_descriptor = feature feature_integrity feature_required integrity_crc32c 1 0 0 0 0

-- The feature directory of a partition with these options.
abbrev pub encoder_features : PartitionOptions → ℕ → ℕ → List FeatureDescriptor
encoder_features o partition_size index_region_size =
    compression_descriptor o
    ∷ time_index_descriptor partition_size index_region_size
    ∷ record_profile_descriptor o
    ∷ integrity_descriptor
    ∷ []

-- The body of the loop that stores the descriptors.
unfoldable pub put_descriptor : List ℕ → ℕ → FeatureDescriptor → List ℕ
unfolding put16 put32 put64
put_descriptor out d descriptor =
    let out = put16 out d descriptor.kind in
    let out = put16 out (d + 2) descriptor.flags in
    let out = put32 out (d + 4) descriptor.algorithm in
    let out = put16 out (d + 8) descriptor.version in
    let out = put32 out (d + 12) descriptor.config_offset in
    let out = put32 out (d + 16) descriptor.config_length in
    let out = put64 out (d + 24) descriptor.region_offset in
    put64 out (d + 32) descriptor.region_length

-- All fields but the checksum.
unfoldable pub partition_header_fields : PartitionHeader → ℕ → ℕ → List ℕ
unfolding store put16 put32 put64 puti64 put_descriptor
partition_header_fields h partition_size index_region_size =
    let out = replicate partition_header_encoded_size 0 in
    let out = store out 0 partition_magic in
    let out = put16 out 8 format_major in
    let out = put16 out 10 format_minor in
    let out = put32 out 12 partition_header_encoded_size in
    let out = put64 out 16 h.volume_id_high in
    let out = put64 out 24 h.volume_id_low in
    let out = put64 out 32 h.generation in
    let out = put32 out 40 h.slot in
    let out = puti64 out 48 h.created_time_ns in
    let out = put32 out 56 h.max_block_payload in
    let out = put32 out 60 h.persistence_quantum in
    let out = puti64 out 64 h.options.allowed_backward_skew_ns in
    let out = puti64 out 72 h.options.allowed_forward_step_ns in
    let out = put64 out 80 h.options.time_domain_id in
    let out = put16 out 88 4 in
    let out = put16 out 90 feature_descriptor_size in
    let out = put32 out 92 128 in
    let out = put32 out 96 512 in
    let out = put32 out 100 16 in
    let out = put_descriptor out 128 (compression_descriptor h.options) in
    let out =
      put_descriptor out (128 + feature_descriptor_size)
        (time_index_descriptor partition_size index_region_size) in
    let out =
      put_descriptor out (128 + 2 * feature_descriptor_size)
        (record_profile_descriptor h.options) in
    let out = put_descriptor out (128 + 3 * feature_descriptor_size) integrity_descriptor in
    put64 out 512 h.options.record_format_id

unfoldable pub encode_partition_header : PartitionHeader → ℕ → ℕ → List ℕ
unfolding partition_header_fields finish_crc
encode_partition_header h partition_size index_region_size =
    finish_crc (partition_header_fields h partition_size index_region_size) 104

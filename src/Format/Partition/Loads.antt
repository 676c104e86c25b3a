-- ===== src/Format/Partition/Loads.antt =====
-- What the decoder loads from an encoded partition header.
use tfdb.Prelude.{false, ◌==◌, ◌≢◌, ◌^◌, ◌<◌, ◌≡◌, refl, arith}
use tfdb.Bytes.{gather, get32, get16, get64, le_bytes}
use tfdb.Format.Partition.{
  List, ℕ, PartitionHeader, encode_partition_header, compression_descriptor, time_index_descriptor,
  record_profile_descriptor, integrity_descriptor, index_offset,
}
use tfdb.Format.Partition.Decode.{load_descriptor, bad_directory}
use tfdb.Bytes.Endian.{gather-le_bytes, IsI64}
use tfdb.Format.{drop, true, take, all_zero}

-- The fields fit their C++ types, and the options are ones that the decoder admits.
pub record IsEncodable (h : PartitionHeader) : Type 0 where
  pub id_high_fits : h.volume_id_high < 2 ^ 64
  pub id_low_fits : h.volume_id_low < 2 ^ 64
  pub generation_fits : h.generation < 2 ^ 64
  pub slot_fits : h.slot < 2 ^ 32
  pub created_fits : IsI64 h.created_time_ns
  pub payload_fits : h.max_block_payload < 2 ^ 32
  pub quantum_fits : h.persistence_quantum < 2 ^ 32
  pub compression_fits : h.options.compression < 2 ^ 16
  pub version_fits : h.options.compression_version < 2 ^ 16
  pub format_fits : h.options.record_format_id < 2 ^ 64
  pub format_version_fits : h.options.record_format_version < 2 ^ 16
  pub domain_fits : h.options.time_domain_id < 2 ^ 64
  pub backward_fits : IsI64 h.options.allowed_backward_skew_ns
  pub forward_fits : IsI64 h.options.allowed_forward_step_ns
  pub has_version : h.options.compression_version ≢ 0
  pub profile_matches : (h.options.record_format_id == 0) ≡ (h.options.record_format_version == 0)

abbrev pub encoded : PartitionHeader → ℕ → ℕ → List ℕ
encoded h psize isize = encode_partition_header h psize isize

module _ (h : PartitionHeader) (psize isize : ℕ) (e : IsEncodable h)
    (index_fits : isize < 2 ^ 32) where
  pub load_compression :
      load_descriptor (encoded h psize isize) 128 ≡ compression_descriptor h.options
  unfolding load_descriptor encode_partition_header le_bytes
  load_compression = λ i. record {
    kind = gather-le_bytes 2 1 (omega arith) i;
    flags = gather-le_bytes 2 1 (omega arith) i;
    algorithm = gather-le_bytes 4 h.options.compression (omega (arith, e.compression_fits)) i;
    version = gather-le_bytes 2 h.options.compression_version e.version_fits i;
    config_offset = gather-le_bytes 4 0 (omega arith) i;
    config_length = gather-le_bytes 4 0 (omega arith) i;
    region_offset = gather-le_bytes 8 0 (omega arith) i;
    region_length = gather-le_bytes 8 0 (omega arith) i;
  }

  pub load_time_index :
      load_descriptor (encoded h psize isize) 168 ≡ time_index_descriptor psize isize
  unfolding load_descriptor encode_partition_header le_bytes
  load_time_index = λ i. record {
    kind = gather-le_bytes 2 2 (omega arith) i;
    flags = gather-le_bytes 2 1 (omega arith) i;
    algorithm = gather-le_bytes 4 1 (omega arith) i;
    version = gather-le_bytes 2 1 (omega arith) i;
    config_offset = gather-le_bytes 4 0 (omega arith) i;
    config_length = gather-le_bytes 4 0 (omega arith) i;
    region_offset = gather-le_bytes 8 (index_offset psize isize) (omega arith) i;
    region_length = gather-le_bytes 8 isize (omega arith) i;
  }

  pub load_record_profile :
      load_descriptor (encoded h psize isize) 208 ≡ record_profile_descriptor h.options
  unfolding load_descriptor encode_partition_header le_bytes
  load_record_profile = λ i. record {
    kind = gather-le_bytes 2 3 (omega arith) i;
    flags = gather-le_bytes 2 0 (omega arith) i;
    algorithm = gather-le_bytes 4 0 (omega arith) i;
    version = gather-le_bytes 2 h.options.record_format_version e.format_version_fits i;
    config_offset = gather-le_bytes 4 512 (omega arith) i;
    config_length = gather-le_bytes 4 8 (omega arith) i;
    region_offset = gather-le_bytes 8 0 (omega arith) i;
    region_length = gather-le_bytes 8 0 (omega arith) i;
  }

  pub load_integrity : load_descriptor (encoded h psize isize) 248 ≡ integrity_descriptor
  unfolding load_descriptor encode_partition_header le_bytes
  load_integrity = λ i. record {
    kind = gather-le_bytes 2 4 (omega arith) i;
    flags = gather-le_bytes 2 1 (omega arith) i;
    algorithm = gather-le_bytes 4 1 (omega arith) i;
    version = gather-le_bytes 2 1 (omega arith) i;
    config_offset = gather-le_bytes 4 0 (omega arith) i;
    config_length = gather-le_bytes 4 0 (omega arith) i;
    region_offset = gather-le_bytes 8 0 (omega arith) i;
    region_length = gather-le_bytes 8 0 (omega arith) i;
  }

  pub load_format : get64 (encoded h psize isize) 512 ≡ h.options.record_format_id
  unfolding encode_partition_header le_bytes get64
  load_format = gather-le_bytes 8 h.options.record_format_id e.format_fits

  -- The reserved bytes of the descriptors, and of the header.
  pub descriptor_reserved :
      (all_zero (take 2 (drop 138 (encoded h psize isize))) ≡ true)
      × (all_zero (take 4 (drop 148 (encoded h psize isize))) ≡ true)
      × (all_zero (take 2 (drop 178 (encoded h psize isize))) ≡ true)
      × (all_zero (take 4 (drop 188 (encoded h psize isize))) ≡ true)
      × (all_zero (take 2 (drop 218 (encoded h psize isize))) ≡ true)
      × (all_zero (take 4 (drop 228 (encoded h psize isize))) ≡ true)
      × (all_zero (take 2 (drop 258 (encoded h psize isize))) ≡ true)
      × (all_zero (take 4 (drop 268 (encoded h psize isize))) ≡ true)
  unfolding encode_partition_header le_bytes all_zero
  descriptor_reserved = (refl, refl, refl, refl, refl, refl, refl, refl)

  pub header_reserved :
      (all_zero (take 4 (drop 44 (encoded h psize isize))) ≡ true)
      × (all_zero (take 20 (drop 108 (encoded h psize isize))) ≡ true)
      × (bad_directory (encoded h psize isize) ≡ false)
      × (get16 (encoded h psize isize) 88 ≡ 4)
  unfolding encode_partition_header le_bytes all_zero bad_directory get16 get32 gather
  header_reserved = (refl, refl, refl, refl)

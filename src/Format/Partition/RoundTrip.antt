-- ===== src/Format/Partition/RoundTrip.antt =====
-- `encode_partition_header` followed by `decode_partition_header`.
use tfdb.Format.Partition.Loads.{IsEncodable}
use tfdb.Format.Partition.{
  encoder_features, integrity_descriptor, partition_header_fields, record_profile_descriptor,
  time_index_descriptor, compression_descriptor, encode_partition_header, PartitionOptions,
  PartitionHeader,
}
use tfdb.Prelude.{ℕ, [], refl, arith, ◌++◌, ◌∷◌, ◌≡◌, false, true, ◌≢◌, ◌^◌, ◌<◌}
use tfdb.Format.Partition.Decode.{
  start, accept_kind, accept_feature, decode_partition_header, Directory, accept_features,
  load_options, load_partition_header,
}
use tfdb.Status.{returns}
use tfdb.Bytes.{get32, gather, get16, le_bytes}
use tfdb.Format.{magic_is, partition_magic, common_check}
use tfdb.Format.Partition.Loads.{
  load_format, descriptor_reserved, load_integrity, load_time_index, load_record_profile,
  load_compression, header_reserved, encoded,
}
use tfdb.Bytes.Endian.{to_i64-gather, gather-le_bytes}
use tfdb.Format.Seal.{common_check-sealed}

module _ (h : PartitionHeader) (psize isize : ℕ) (e : IsEncodable h)
    (index_fits : isize < 2 ^ 32) where
  -- The rounds of the loop over the encoder's directory.
  module _ (dir : Directory) where
    compression_round :
        dir.compression ≡ false
        → accept_feature (encoded h psize isize) 128 dir
          ≡ returns (record dir {
            compression = true;
            options = record dir.options {
              compression = h.options.compression;
              compression_version = h.options.compression_version;
            };
            features = dir.features ++ compression_descriptor h.options ∷ [];
          })
    unfolding accept_feature accept_kind
    compression_round fresh =
        rw
          (
            load_compression,
            (descriptor_reserved h psize isize e index_fits).0,
            (descriptor_reserved h psize isize e index_fits).1,
          )
          (ground (arith, e.has_version, e.compression_fits))

    time_index_round :
        dir.time_index ≡ false
        → isize ≢ 0
        → accept_feature (encoded h psize isize) 168 dir
          ≡ returns (record dir {
            time_index = true;
            features = dir.features ++ time_index_descriptor psize isize ∷ [];
          })
    unfolding accept_feature accept_kind
    time_index_round fresh sized =
        rw
          (
            load_time_index,
            (descriptor_reserved h psize isize e index_fits).2,
            (descriptor_reserved h psize isize e index_fits).3,
          )
          (ground arith)

    record_profile_round :
        dir.record_profile ≡ false
        → dir.config_ranges ≡ []
        → accept_feature (encoded h psize isize) 208 dir
          ≡ returns (record dir {
            record_profile = true;
            config_ranges = (512, 520) ∷ [];
            options = record dir.options {
              record_format_version = h.options.record_format_version;
              record_format_id = h.options.record_format_id;
            };
            features = dir.features ++ record_profile_descriptor h.options ∷ [];
          })
    unfolding accept_feature accept_kind
    record_profile_round fresh alone =
        rw
          (
            load_record_profile h psize isize e index_fits,
            (descriptor_reserved h psize isize e index_fits).4,
            (descriptor_reserved h psize isize e index_fits).5,
            alone,
            load_format h psize isize e index_fits,
          )
          (ground arith)

    integrity_round :
        dir.integrity ≡ false
        → accept_feature (encoded h psize isize) 248 dir
          ≡ returns (record dir {
            integrity = true;
            features = dir.features ++ integrity_descriptor ∷ [];
          })
    unfolding accept_feature accept_kind
    integrity_round fresh =
        rw
          (
            load_integrity,
            (descriptor_reserved h psize isize e index_fits).6,
            (descriptor_reserved h psize isize e index_fits).7,
          )
          (ground arith)

  abbrev complete : Directory
  complete = record {
    compression = true;
    time_index = true;
    integrity = true;
    record_profile = true;
    config_ranges = (512, 520) ∷ [];
    options = h.options;
    features = encoder_features h.options psize isize;
  }

  abbrev defaults : PartitionOptions
  defaults = record h.options {
    compression = 0;
    compression_version = 1;
    record_format_id = 0;
    record_format_version = 0;
  }

  -- The directory after the rounds but the last.
  abbrev after_compression : Directory
  after_compression = record complete {
    time_index = false;
    integrity = false;
    record_profile = false;
    config_ranges = [];
    options = record h.options { record_format_id = 0; record_format_version = 0 };
    features = compression_descriptor h.options ∷ [];
  }

  abbrev after_time_index : Directory
  after_time_index = record after_compression {
    time_index = true;
    features = compression_descriptor h.options ∷ time_index_descriptor psize isize ∷ [];
  }

  abbrev after_record_profile : Directory
  after_record_profile = record complete {
    integrity = false;
    features =
        compression_descriptor h.options
        ∷ time_index_descriptor psize isize
        ∷ record_profile_descriptor h.options
        ∷ [];
  }

  options-encode : load_options (encoded h psize isize) ≡ defaults
  unfolding load_options encode_partition_header le_bytes
  options-encode = λ i. record {
    compression = 0;
    compression_version = 1;
    record_format_id = 0;
    record_format_version = 0;
    time_domain_id = gather-le_bytes 8 h.options.time_domain_id e.domain_fits i;
    allowed_backward_skew_ns = to_i64-gather h.options.allowed_backward_skew_ns e.backward_fits i;
    allowed_forward_step_ns = to_i64-gather h.options.allowed_forward_step_ns e.forward_fits i;
  }

  accept_features-encode :
      isize ≢ 0
      → accept_features (encoded h psize isize) 4 128 (start (encoded h psize isize))
        ≡ returns complete
  unfolding accept_features
  accept_features-encode sized = rw (
    options-encode,
    compression_round
        (record after_compression { compression = false; options = defaults; features = [] }) refl,
    time_index_round after_compression refl sized,
    record_profile_round after_time_index refl refl,
    integrity_round after_record_profile refl,
  )

  header-encode :
      load_partition_header (encoded h psize isize) complete
      ≡ record h { features = encoder_features h.options psize isize }
  unfolding load_partition_header encode_partition_header le_bytes
  header-encode = λ i. record {
    volume_id_high = gather-le_bytes 8 h.volume_id_high e.id_high_fits i;
    volume_id_low = gather-le_bytes 8 h.volume_id_low e.id_low_fits i;
    generation = gather-le_bytes 8 h.generation e.generation_fits i;
    slot = gather-le_bytes 4 h.slot e.slot_fits i;
    created_time_ns = to_i64-gather h.created_time_ns e.created_fits i;
    max_block_payload = gather-le_bytes 4 h.max_block_payload e.payload_fits i;
    persistence_quantum = gather-le_bytes 4 h.persistence_quantum e.quantum_fits i;
    options = h.options;
    features = encoder_features h.options psize isize;
  }

  checks-encode : common_check (encoded h psize isize) partition_magic 1024 104 ≡ returns tt
  unfolding encode_partition_header
  checks-encode =
      common_check-sealed (partition_header_fields h psize isize) partition_magic 1024 104
        (unfold partition_header_fields in refl) (omega arith)
        (unfold encode_partition_header magic_is le_bytes in refl)
        (unfold encode_partition_header get16 gather le_bytes in refl)
        (unfold encode_partition_header get16 gather le_bytes in refl)
        (unfold encode_partition_header get32 gather le_bytes in refl)

  -- A partition header whose fields fit their widths on the media, whose compression version is not
  -- zero and whose record format id is zero exactly if its version is, encoded for an index region that
  -- is not empty and smaller than 2 ^ 32, is decoded to itself with the encoder's four features.
  pub decode_partition_header-encode :
      isize ≢ 0
      → decode_partition_header (encode_partition_header h psize isize)
        ≡ returns (record h { features = encoder_features h.options psize isize })
  unfolding decode_partition_header
  decode_partition_header-encode sized =
      rw
        (
          checks-encode,
          (header_reserved h psize isize e index_fits).0,
          (header_reserved h psize isize e index_fits).1,
          (header_reserved h psize isize e index_fits).2,
          (header_reserved h psize isize e index_fits).3,
          accept_features-encode sized,
          header-encode,
        )
        (ground (arith, e.profile_matches))

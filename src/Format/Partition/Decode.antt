-- ===== src/Format/Partition/Decode.antt =====
-- `decode_partition_header`. Its loop over the feature directory carries a `Directory`.
use tfdb.Prelude.{
  ℕ, zero, suc, ◌+◌, ◌-◌, ◌*◌, ◌^◌, Bool, true, false, not, ◌&&◌, ◌||◌, ◌==◌, ltb, bit_and,
  if◌then◌else◌, List, [], ◌∷◌, ◌++◌, take, drop,
}
use tfdb.Status.{ErrorCode, Result, returns, fails, ◌>>=◌, ◌>>◌, reject_if}
use tfdb.Bytes.{get16, get32, get64, geti64}
use tfdb.Format.{
  partition_magic, partition_header_encoded_size, feature_descriptor_size, common_check, all_zero,
}
use tfdb.Format.Partition.{
  PartitionOptions, FeatureDescriptor, PartitionHeader, feature_compression, feature_time_index,
  feature_record_profile, feature_integrity, integrity_crc32c, time_index_min_max, feature_required,
}

-- The locals of the loop, and the parts of the header that it fills.
pub record Directory : Type 0 where
  pub compression : Bool
  pub time_index : Bool
  pub integrity : Bool
  pub record_profile : Bool
  pub config_ranges : List (ℕ × ℕ)
  pub options : PartitionOptions
  pub features : List FeatureDescriptor

-- The assignments to `feature`; `d` is the descriptor's place.
unfoldable pub load_descriptor : List ℕ → ℕ → FeatureDescriptor
unfolding get16 get32 get64
load_descriptor bs d = record {
  kind = get16 bs d;
  flags = get16 bs (d + 2);
  algorithm = get32 bs (d + 4);
  version = get16 bs (d + 8);
  config_offset = get32 bs (d + 12);
  config_length = get32 bs (d + 16);
  region_offset = get64 bs (d + 24);
  region_length = get64 bs (d + 32);
}

-- Some earlier range meets [from, to).
unfoldable pub overlaps : ℕ → ℕ → List (ℕ × ℕ) → Bool
overlaps from to [] = false
overlaps from to ((first, last) ∷ ranges) =
    (ltb from last && ltb first to) || overlaps from to ranges

-- The bounds of a feature's configuration, which is in [512, 528).
unfoldable pub check_config : FeatureDescriptor → List (ℕ × ℕ) → Result (List (ℕ × ℕ))
unfolding overlaps
check_config f ranges =
    if f.config_length == 0
    then (do reject_if (not (f.config_offset == 0)) ErrorCode.corrupt; returns ranges)
    else do
      reject_if
          (ltb f.config_offset 512
            || ltb 528 f.config_offset
            || ltb (528 - f.config_offset) f.config_length)
          ErrorCode.corrupt
      let feature_end = f.config_offset + f.config_length
      reject_if (overlaps f.config_offset feature_end ranges) ErrorCode.corrupt
      returns (ranges ++ (f.config_offset, feature_end) ∷ [])

abbrev required : FeatureDescriptor → Bool
required f = not (bit_and f.flags feature_required == 0)

abbrev has_config : FeatureDescriptor → Bool
has_config f = not (f.config_offset == 0) || not (f.config_length == 0)

abbrev has_region : FeatureDescriptor → Bool
has_region f = not (f.region_offset == 0) || not (f.region_length == 0)

-- The branches on `feature.kind`.
unfoldable pub accept_compression : FeatureDescriptor → Directory → Result Directory
accept_compression f dir = do
  reject_if dir.compression ErrorCode.corrupt
  reject_if
      (not (required f)
        || f.version == 0
        || ltb (2 ^ 16 - 1) f.algorithm
        || has_config f
        || has_region f)
      ErrorCode.corrupt
  returns (record dir {
    compression = true;
    options = record dir.options { compression = f.algorithm; compression_version = f.version };
  })

unfoldable pub accept_time_index : FeatureDescriptor → Directory → Result Directory
accept_time_index f dir = do
  reject_if dir.time_index ErrorCode.corrupt
  reject_if (not (required f) || has_config f || f.region_length == 0) ErrorCode.corrupt
  reject_if (not (f.algorithm == time_index_min_max) || not (f.version == 1)) ErrorCode.unsupported
  returns (record dir { time_index = true })

unfoldable pub accept_record_profile : List ℕ → FeatureDescriptor → Directory → Result Directory
accept_record_profile bs f dir = do
  reject_if dir.record_profile ErrorCode.corrupt
  reject_if
      (not (f.flags == 0)
        || not (f.algorithm == 0)
        || not (f.config_offset == 512)
        || not (f.config_length == 8)
        || has_region f)
      ErrorCode.corrupt
  returns (record dir {
    record_profile = true;
    options = record dir.options {
      record_format_version = f.version;
      record_format_id = get64 bs f.config_offset;
    };
  })

unfoldable pub accept_integrity : FeatureDescriptor → Directory → Result Directory
accept_integrity f dir = do
  reject_if dir.integrity ErrorCode.corrupt
  reject_if (not (required f) || has_config f || has_region f) ErrorCode.corrupt
  reject_if (not (f.algorithm == integrity_crc32c) || not (f.version == 1)) ErrorCode.unsupported
  returns (record dir { integrity = true })

unfoldable pub accept_kind : List ℕ → FeatureDescriptor → Directory → Result Directory
unfolding accept_compression accept_time_index accept_record_profile accept_integrity
accept_kind bs f dir =
    if f.kind == feature_compression
    then accept_compression f dir
    else if f.kind == feature_time_index
    then accept_time_index f dir
    else if f.kind == feature_record_profile
    then accept_record_profile bs f dir
    else if f.kind == feature_integrity
    then accept_integrity f dir
    else if required f
    then fails ErrorCode.unsupported
    else returns dir

-- One round of the loop. `0xfffe` is `~kFeatureRequired` on a `uint16_t`.
unfoldable pub accept_feature : List ℕ → ℕ → Directory → Result Directory
unfolding check_config
accept_feature bs d dir = do
  let f = load_descriptor bs d
  reject_if
      (not (bit_and f.flags 0xfffe == 0)
        || not (all_zero (take 2 (drop (d + 10) bs)))
        || not (all_zero (take 4 (drop (d + 20) bs))))
      ErrorCode.corrupt
  ranges ← check_config f dir.config_ranges
  dir' ← accept_kind bs f (record dir { config_ranges = ranges })
  returns (record dir' { features = dir'.features ++ f ∷ [] })

-- The rounds left, and the place of the next descriptor.
unfoldable pub accept_features : List ℕ → ℕ → ℕ → Directory → Result Directory
accept_features bs zero d dir = returns dir
accept_features bs (suc rounds) d dir = do
  dir' ← accept_feature bs d dir
  accept_features bs rounds (d + feature_descriptor_size) dir'

-- The header's own fields; the options that the directory fills have their default values.
unfoldable pub load_options : List ℕ → PartitionOptions
unfolding get64 geti64
load_options bs = record {
  compression = 0;
  compression_version = 1;
  record_format_id = 0;
  record_format_version = 0;
  time_domain_id = get64 bs 80;
  allowed_backward_skew_ns = geti64 bs 64;
  allowed_forward_step_ns = geti64 bs 72;
}

unfoldable pub load_partition_header : List ℕ → Directory → PartitionHeader
unfolding get32 get64 geti64
load_partition_header bs dir = record {
  volume_id_high = get64 bs 16;
  volume_id_low = get64 bs 24;
  generation = get64 bs 32;
  slot = get32 bs 40;
  created_time_ns = geti64 bs 48;
  max_block_payload = get32 bs 56;
  persistence_quantum = get32 bs 60;
  options = dir.options;
  features = dir.features;
}

-- The test of the directory's header.
unfoldable pub bad_directory : List ℕ → Bool
bad_directory bs =
    ltb 8 (get16 bs 88)
    || not (get16 bs 90 == feature_descriptor_size)
    || not (get32 bs 92 == 128)
    || not (get32 bs 96 == 512)
    || not (get32 bs 100 == 16)
    || ltb (partition_header_encoded_size - get32 bs 92) (get16 bs 88 * get16 bs 90)

abbrev pub start : List ℕ → Directory
start bs = record {
  compression = false;
  time_index = false;
  integrity = false;
  record_profile = false;
  config_ranges = [];
  options = load_options bs;
  features = [];
}

unfoldable pub decode_partition_header : List ℕ → Result PartitionHeader
decode_partition_header bs = do
  common_check bs partition_magic partition_header_encoded_size 104
  reject_if (not (all_zero (take 4 (drop 44 bs))) || not (all_zero (take 20 (drop 108 bs))))
      ErrorCode.corrupt
  reject_if (bad_directory bs) ErrorCode.corrupt
  dir ← accept_features bs (get16 bs 88) 128 (start bs)
  reject_if
      (not dir.compression || not dir.time_index || not dir.integrity || not dir.record_profile)
      ErrorCode.corrupt
  reject_if
      (not (
        if dir.options.record_format_id == 0
        then dir.options.record_format_version == 0
        else not (dir.options.record_format_version == 0)))
      ErrorCode.corrupt
  returns (load_partition_header bs dir)

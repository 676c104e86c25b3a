-- ===== src/RingStore/Reader/Features.antt =====
-- The feature tests of `read_partition_header`.
use tfdb.Prelude.{Bool, not, ◌&&◌, ◌||◌, List, [], ◌∷◌, ltb, ◌==◌}
use tfdb.Status.{ErrorCode, Result, returns, ◌>>◌, reject_if}
use tfdb.Format.Volume.{VolumeHeader}
use tfdb.Format.Partition.{
  FeatureDescriptor, feature_compression, feature_time_index, feature_record_profile,
  feature_integrity,
}
use tfdb.RingStore.State.{index_begin, sub64}

abbrev is_known : FeatureDescriptor → Bool
is_known f =
    f.kind == feature_compression
    || f.kind == feature_time_index
    || f.kind == feature_record_profile
    || f.kind == feature_integrity

-- The tests of one feature, in the source's order; the first that applies gives the error.
unfoldable pub check_feature : VolumeHeader → FeatureDescriptor → Result (Unit {0})
check_feature v f = do
  reject_if
      (ltb v.partition_size f.region_offset
        || ltb (sub64 v.partition_size f.region_offset) f.region_length)
      ErrorCode.corrupt
  reject_if
      (f.kind == feature_time_index
        && (not (f.region_offset == index_begin v) || not (f.region_length == v.index_region_size)))
      ErrorCode.corrupt
  reject_if (not (is_known f) && not (f.region_length == 0)) ErrorCode.unsupported

unfoldable pub check_features : VolumeHeader → List FeatureDescriptor → Result (Unit {0})
unfolding check_feature
check_features v [] = returns tt
check_features v (f ∷ fs) = do check_feature v f; check_features v fs

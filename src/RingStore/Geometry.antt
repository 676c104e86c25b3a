-- ===== src/RingStore/Geometry.antt =====
-- The geometry of a volume: the test of `open`, `validate_volume_geometry`.
use tfdb.Prelude.{leb, ℕ, ◌+◌, ◌-◌, ◌/◌, ◌%◌, bit_and, Bool, not, ◌&&◌, ◌||◌, ltb, ◌==◌}
use tfdb.Status.{ErrorCode, Result, ◌>>◌, reject_if}
use tfdb.Format.{
  volume_prefix_size, partition_header_region_size, partition_footer_region_size,
  block_header_encoded_size, index_entry_encoded_size, align_up,
}
use tfdb.Format.Volume.{VolumeHeader}
use tfdb.RingStore.State.{sub64}

-- A 32-bit number and its predecessor have no bit in common.
unfoldable pub is_power_of_two : ℕ → Bool
is_power_of_two value = not (value == 0) && bit_and value (value - 1) == 0

-- The region of a partition that holds no blocks.
abbrev pub fixed_size : ℕ → ℕ
fixed_size index_region_size =
    partition_header_region_size + partition_footer_region_size + index_region_size

-- The span of the largest block, and whether it overflowed.
abbrev pub maximum_span : ℕ → ℕ → ℕ × Bool
maximum_span max_block_payload quantum =
    align_up (block_header_encoded_size + max_block_payload) quantum

abbrev pub bad_sizes : VolumeHeader → ℕ → Bool
bad_sizes v backend_size =
    ltb backend_size v.volume_size
    || ltb v.volume_size volume_prefix_size
    || ltb v.partition_count 2
    || v.partition_size == 0
    || not (is_power_of_two v.persistence_quantum)
    || ltb partition_header_region_size v.persistence_quantum
    || v.max_block_payload == 0
    || ltb v.index_region_size index_entry_encoded_size
    || not (volume_prefix_size % v.persistence_quantum == 0)
    || not (partition_header_region_size % v.persistence_quantum == 0)
    || not (v.partition_size % v.persistence_quantum == 0)
    || not (v.index_region_size % v.persistence_quantum == 0)

abbrev pub exceeds_backend : VolumeHeader → Bool
exceeds_backend v =
    leb v.partition_size (fixed_size v.index_region_size)
    || ltb (sub64 v.partition_size (fixed_size v.index_region_size)) v.persistence_quantum
    || ltb (sub64 v.volume_size volume_prefix_size / v.partition_size) v.partition_count

abbrev pub block_too_large : VolumeHeader → Bool
block_too_large v =
    let (span, overflow) = maximum_span v.max_block_payload v.persistence_quantum in
    overflow || ltb (sub64 v.partition_size (fixed_size v.index_region_size)) span

unfoldable pub validate_volume_geometry : VolumeHeader → ℕ → Result (Unit {0})
unfolding is_power_of_two
validate_volume_geometry v backend_size = do
  reject_if (v.volume_id_high == 0 && v.volume_id_low == 0) ErrorCode.corrupt
  reject_if (bad_sizes v backend_size) ErrorCode.corrupt
  reject_if (exceeds_backend v) ErrorCode.corrupt
  reject_if (block_too_large v) ErrorCode.corrupt

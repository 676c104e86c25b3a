-- ===== src/RingStore/Reader/Slots.antt =====
-- `read_partition_header` and `read_footer`.
use tfdb.Prelude.{ℕ, ◌*◌, ◌%◌, Bool, not, ◌&&◌, ◌||◌, List, ltb, ◌==◌, ltb_ℤ}
use tfdb.Status.{ErrorCode}
use tfdb.Format.{
  partition_header_region_size, partition_header_encoded_size, partition_footer_encoded_size,
  index_entry_encoded_size,
}
use tfdb.Format.Volume.{VolumeHeader}
use tfdb.Format.Footer.{PartitionFooter, decode_partition_footer}
use tfdb.Format.Partition.{PartitionHeader}
use tfdb.Format.Partition.Decode.{decode_partition_header}
use tfdb.Codec.{CompressionCodec}
use tfdb.RingStore.State.{
  Device, partition_base, index_begin, footer_offset, validate_partition_options, add64,
}
use tfdb.RingStore.Reader.Features.{check_features}
use tfdb.RingStore.Reader.Reads.{Reads, ◌>>=◌, ◌>>◌, give, lift, reject, require_ok}

abbrev pub other_partition : VolumeHeader → ℕ → PartitionHeader → Bool
other_partition v slot h =
    not (h.volume_id_high == v.volume_id_high)
    || not (h.volume_id_low == v.volume_id_low)
    || not (h.slot == slot)
    || not (h.max_block_payload == v.max_block_payload)
    || not (h.persistence_quantum == v.persistence_quantum)

abbrev pub bad_footer : VolumeHeader → PartitionHeader → PartitionFooter → Bool
bad_footer v h f =
    not (f.volume_id_high == v.volume_id_high)
    || not (f.volume_id_low == v.volume_id_low)
    || not (f.slot == h.slot)
    || not (f.generation == h.generation)
    || not (f.index_offset == index_begin v)
    || ltb v.index_region_size f.index_size
    || ltb f.data_end partition_header_region_size
    || ltb (index_begin v) f.data_end
    || not (f.data_end % v.persistence_quantum == 0)
    || not (f.index_size == f.block_count * index_entry_encoded_size)
    || (f.block_count == 0 && not (f.data_end == partition_header_region_size))
    || (not (f.block_count == 0) && ltb_ℤ f.max_time_ns f.min_time_ns)

module _ {S : Type 0} (dev : Device S) (v : VolumeHeader) where
  unfoldable pub read_partition_header : List CompressionCodec → ℕ → Reads S PartitionHeader
  read_partition_header codecs slot = do
    bs ← dev.read (partition_base v slot) partition_header_encoded_size
    h ← lift (decode_partition_header bs)
    reject (other_partition v slot h) ErrorCode.corrupt
    require_ok (validate_partition_options codecs h.options)
    lift (check_features v h.features)
    give h

  unfoldable pub read_footer : PartitionHeader → Reads S PartitionFooter
  read_footer h = do
    bs ← dev.read (add64 (partition_base v h.slot) (footer_offset v)) partition_footer_encoded_size
    f ← lift (decode_partition_footer bs)
    reject (bad_footer v h f) ErrorCode.corrupt
    give f

-- ===== src/RingStore/Rotate.antt =====
-- `create_partition`, `seal_active_only`, `rotate_internal` and `ensure_empty_builder_capacity`.
use tfdb.Prelude.{
  ℕ, ◌+◌, ◌-◌, ◌/◌, ◌%◌, ◌^◌, Bool, true, false, not, ◌||◌, Option, none, some, List, [], ◌∷◌, ◌++◌,
  ltb, ◌==◌, if◌then◌else◌, length, pos,
}
use tfdb.Status.{ErrorCode, Status, ok, error}
use tfdb.Crc.{crc32c}
use tfdb.Format.{
  partition_header_region_size, block_header_encoded_size, index_entry_encoded_size, align_up,
}
use tfdb.Format.Volume.{VolumeHeader}
use tfdb.Format.Index.{encode_index}
use tfdb.Format.Footer.{PartitionFooter, encode_partition_footer}
use tfdb.Format.Partition.{PartitionHeader, PartitionOptions, encode_partition_header}
use tfdb.RingStore.State.{
  Device, Impl, PartitionState, partition_base, index_begin, footer_offset, active, set_active,
  fail, validate_partition_options, ◌>=>◌, add64, sub64,
}
use tfdb.RingStore.Media.{sync_media}

-- `std::sort` by generation. Generations are distinct, so every sort gives the same list.
unfoldable pub insert_by_generation : PartitionState → List PartitionState → List PartitionState
insert_by_generation p [] = p ∷ []
insert_by_generation p (q ∷ qs) =
    if ltb q.header.generation p.header.generation
    then q ∷ insert_by_generation p qs
    else p ∷ q ∷ qs

unfoldable pub sort_by_generation : List PartitionState → List PartitionState
unfolding insert_by_generation
sort_by_generation [] = []
sort_by_generation (p ∷ ps) = insert_by_generation p (sort_by_generation ps)

-- `std::remove_if` of the partitions in a slot.
unfoldable pub without_slot : ℕ → List PartitionState → List PartitionState
without_slot slot [] = []
without_slot slot (p ∷ ps) =
    if p.header.slot == slot then without_slot slot ps else p ∷ without_slot slot ps

unfoldable pub remove_slot : ℕ → List ℕ → List ℕ
remove_slot slot [] = []
remove_slot slot (n ∷ ns) = if n == slot then remove_slot slot ns else n ∷ remove_slot slot ns

-- The values of a `PartitionFooter` and a `PartitionState` that nothing was assigned to.
abbrev pub no_footer : PartitionFooter
no_footer = record {
  volume_id_high = 0;
  volume_id_low = 0;
  generation = 0;
  slot = 0;
  flags = 0;
  block_count = 0;
  index_offset = 0;
  index_size = 0;
  data_end = 0;
  min_time_ns = pos 0;
  max_time_ns = pos 0;
  index_crc = 0;
}

abbrev pub new_partition : PartitionHeader → PartitionState
new_partition header = record {
  header = header;
  sealed = false;
  index_valid = false;
  footer = no_footer;
  active_index = [];
  data_end = partition_header_region_size;
  aggregate_flags = 0;
  has_time = false;
  block_count = 0;
  min_time_ns = pos 0;
  max_time_ns = pos 0;
}

-- The header of a new partition. Its feature directory is built by the encoder.
abbrev pub header_for : VolumeHeader → ℕ → ℕ → PartitionOptions → PartitionHeader
header_for v slot generation options = record {
  volume_id_high = v.volume_id_high;
  volume_id_low = v.volume_id_low;
  generation = generation;
  slot = slot;
  created_time_ns = pos 0;
  max_block_payload = v.max_block_payload;
  persistence_quantum = v.persistence_quantum;
  options = options;
  features = [];
}

abbrev pub domain_changes : Option PartitionState → PartitionOptions → Bool
domain_changes none options = false
domain_changes (some p) options = not (p.header.options.time_domain_id == options.time_domain_id)

abbrev pub footer_of : VolumeHeader → PartitionState → PartitionFooter
footer_of v p = record {
  volume_id_high = v.volume_id_high;
  volume_id_low = v.volume_id_low;
  generation = p.header.generation;
  slot = p.header.slot;
  flags = p.aggregate_flags;
  block_count = length p.active_index % 2 ^ 32;
  index_offset = index_begin v;
  index_size = length (encode_index p.active_index) % 2 ^ 32;
  data_end = p.data_end;
  min_time_ns = if p.has_time then p.min_time_ns else pos 0;
  max_time_ns = if p.has_time then p.max_time_ns else pos 0;
  index_crc = crc32c (encode_index p.active_index);
}

module _ {S : Type 0} (dev : Device S) where
  abbrev pub after_write : Status × S → Impl S → Status × Impl S
  after_write (ok, storage') s = (ok, record s { storage = storage' })
  after_write (error code, storage') s = fail code (record s { storage = storage' })

  -- `write_exact`, whose errors fault the store.
  unfoldable pub write_or_fail : ℕ → List ℕ → Impl S → Status × Impl S
  unfolding fail
  write_or_fail offset bs s = after_write (dev.write offset bs s.storage) s

  -- The assignments of `create_partition` after its flush.
  unfoldable pub install_partition : PartitionHeader → Bool → Impl S → Impl S
  unfolding sort_by_generation without_slot remove_slot
  install_partition header time_domain_changed s = record s {
    partitions =
        sort_by_generation (without_slot header.slot s.partitions ++ new_partition header ∷ []);
    corrupt_slots = remove_slot header.slot s.corrupt_slots;
    active_generation = header.generation;
    active_slot = header.slot;
    have_last_time = if time_domain_changed then false else s.have_last_time;
    dirty = false;
  }

  unfoldable pub create_partition : ℕ → ℕ → PartitionOptions → Impl S → Status × Impl S
  unfolding write_or_fail install_partition
  create_partition slot generation options s =
      if generation == 0
      then (error ErrorCode.generation_exhausted, s)
      else let time_domain_changed = domain_changes (active s) options in
        let header = header_for s.volume slot generation options in
        let encoded =
          encode_partition_header header s.volume.partition_size s.volume.index_region_size in
        (validate_partition_options s.compression_codecs options, s)
        >=> write_or_fail (partition_base s.volume slot) encoded
        >=> sync_media dev false
        >=> λ s'. (ok, install_partition header time_domain_changed s')

  -- The index and the footer of the active partition, written and flushed.
  unfoldable pub write_footer : PartitionState → Impl S → Status × Impl S
  unfolding write_or_fail
  write_footer p s =
      let index_bytes = encode_index p.active_index in
      let base = partition_base s.volume p.header.slot in
      let footer_bytes = encode_partition_footer (footer_of s.volume p) in
      if ltb s.volume.index_region_size (length index_bytes)
      then fail ErrorCode.internal_error s
      else (if length index_bytes == 0
          then (ok, s)
          else write_or_fail (add64 base (index_begin s.volume)) index_bytes s)
        >=> write_or_fail (add64 base (footer_offset s.volume)) footer_bytes
        >=> sync_media dev false

  unfoldable pub seal_partition : PartitionState → Impl S → Status × Impl S
  unfolding write_footer
  seal_partition p s =
      (if s.dirty then sync_media dev true s else (ok, s)) >=> write_footer p >=> λ s'. (
        ok,
        set_active s'
            (record p { sealed = true; index_valid = true; footer = footer_of s.volume p }),
      )

  unfoldable pub seal_active_only : Impl S → Status × Impl S
  unfolding seal_partition
  seal_active_only s = elim (active s) [
    | none ↦ (error ErrorCode.internal_error, s)
    | some p ↦ if p.sealed then (error ErrorCode.internal_error, s) else seal_partition p s
  ]

  abbrev count_rotation : Impl S → Impl S
  count_rotation s = record s {
    metrics = record s.metrics { rotations = add64 s.metrics.rotations 1 };
  }

  unfoldable pub rotate_from : PartitionState → PartitionOptions → Impl S → Status × Impl S
  unfolding seal_active_only create_partition
  rotate_from p options s =
      if p.header.generation == 2 ^ 64 - 1
      then fail ErrorCode.generation_exhausted s
      else let next_slot = (p.header.slot + 1) % 2 ^ 32 % s.volume.partition_count in
        let next_generation = add64 p.header.generation 1 in
        seal_active_only s >=> create_partition next_slot next_generation options >=> λ s'.
        (ok, count_rotation s')

  unfoldable pub rotate_internal : PartitionOptions → Impl S → Status × Impl S
  unfolding rotate_from
  rotate_internal options s = elim (active s) [
    | none ↦ (error ErrorCode.internal_error, s)
    | some p ↦ rotate_from p options s
  ]

  -- The span of the largest block, and whether it overflowed.
  abbrev pub worst_span : VolumeHeader → ℕ × Bool
  worst_span v =
      align_up (add64 block_header_encoded_size v.max_block_payload) v.persistence_quantum

  abbrev pub data_full : VolumeHeader → PartitionState → ℕ → Bool
  data_full v p span = ltb (index_begin v) p.data_end || ltb (sub64 (index_begin v) p.data_end) span

  abbrev pub index_full : VolumeHeader → PartitionState → Bool
  index_full v p = ltb (v.index_region_size / index_entry_encoded_size) (length p.active_index + 1)

  unfoldable pub ensure_for : PartitionState → Impl S → Status × Impl S
  unfolding fail
  ensure_for p s =
      let (span, overflow) = worst_span s.volume in
      if overflow || ltb (sub64 (index_begin s.volume) partition_header_region_size) span
      then fail ErrorCode.no_space s
      else if data_full s.volume p span || index_full s.volume p
      then rotate_internal s.next_options s
      else (ok, s)

  unfoldable pub ensure_empty_builder_capacity : Impl S → Status × Impl S
  unfolding ensure_for
  ensure_empty_builder_capacity s =
      if not (length s.builder == 0)
      then (ok, s)
      else elim (active s) [ none ↦ (error ErrorCode.internal_error, s) | some p ↦ ensure_for p s ]

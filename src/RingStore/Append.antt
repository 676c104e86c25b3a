-- ===== src/RingStore/Append.antt =====
-- The operations of `RingStore` that append records and make them durable, each under the mutex.
use tfdb.Prelude.{
  ℕ, ◌+◌, ◌%◌, ◌^◌, bit_and, bit_or, Bool, true, false, not, ◌&&◌, ◌||◌, Option, none, some, List,
  ◌++◌, ltb, ◌==◌, if◌then◌else◌, length, ℤ, pos, ltb_ℤ, min_ℤ, max_ℤ,
}
use tfdb.Status.{ErrorCode, Status, ok, error}
use tfdb.Bytes.{ByteView, empty, valid, contents, size, to_u64}
use tfdb.Format.Partition.{PartitionOptions}
use tfdb.RingStore.State.{Device, Impl, active, validate_partition_options, ◌>=>◌, add64, sub64}
use tfdb.RingStore.Media.{sync_media}
use tfdb.RingStore.Rotate.{rotate_internal, ensure_empty_builder_capacity}
use tfdb.RingStore.Emit.{emit_builder}

pub record AppendContract : Type 0 where
  pub record_format_id : ℕ
  pub record_format_version : ℕ
  pub time_domain_id : ℕ

-- `kBlockFlagTimeAnomaly`
abbrev pub time_anomaly : ℕ
time_anomaly = 1

-- `kBlockFlagUnsynchronizedTime`
abbrev pub unsynchronized_time : ℕ
unsynchronized_time = 2

-- The difference of two times that do not decrease is exact in 64 bits.
unfoldable pub delta_exceeds : ℤ → ℤ → ℤ → Bool
delta_exceeds earlier later allowed =
    if ltb_ℤ allowed (pos 0)
    then false
    else if ltb_ℤ later earlier
    then true
    else ltb (to_u64 allowed) (sub64 (to_u64 later) (to_u64 earlier))

-- `record_flags` without the bits of the store, and the store's own bit for an unsynchronized time.
unfoldable pub accepted_flags : ℕ → ℕ
accepted_flags record_flags =
    let application = bit_and record_flags 0xffff0000 in
    if bit_and record_flags 1 == 0 then application else bit_or application unsynchronized_time

unfoldable pub is_anomaly : Bool → ℤ → ℤ → PartitionOptions → Bool
unfolding delta_exceeds
is_anomaly have_last_time last_time time options =
    have_last_time
    && ((ltb_ℤ time last_time && delta_exceeds time last_time options.allowed_backward_skew_ns)
        || (ltb_ℤ last_time time && delta_exceeds last_time time options.allowed_forward_step_ns))

unfoldable pub breaks_contract : Option AppendContract → PartitionOptions → Bool
breaks_contract none options = false
breaks_contract (some expected) options =
    not (options.record_format_id == expected.record_format_id)
    || not (options.record_format_version == expected.record_format_version)
    || not (options.time_domain_id == expected.time_domain_id)

module _ {S : Type 0} (dev : Device S) where
  -- The three tests that every operation of the writer starts with.
  unfoldable pub admitted : (Impl S → Status × Impl S) → Impl S → Status × Impl S
  admitted operation s =
      if not s.writable
      then (error ErrorCode.io_error, s)
      else if s.closed
      then (error ErrorCode.closed, s)
      else if s.faulted
      then (s.fault_status, s)
      else operation s

  -- The record's bytes, flags and time in the builder, and its count in the metrics.
  unfoldable pub buffer_record : List ℕ → ℤ → ℕ → Impl S → Impl S
  buffer_record bs time flags s =
      let fresh = length s.builder == 0 in
      record s {
        builder_min_time = if fresh then time else min_ℤ s.builder_min_time time;
        builder_max_time = if fresh then time else max_ℤ s.builder_max_time time;
        builder_flags = if fresh then flags else bit_or s.builder_flags flags;
        builder = s.builder ++ bs;
        builder_records = (s.builder_records + 1) % 2 ^ 32;
        last_time = time;
        have_last_time = true;
        metrics = record s.metrics {
          accepted_records = add64 s.metrics.accepted_records 1;
          accepted_payload_bytes = add64 s.metrics.accepted_payload_bytes (length bs);
        };
      }

  -- The clock is read twice, once for the state and once for the atomic.
  unfoldable pub note_undurable : Impl S → Impl S
  note_undurable s =
      if s.have_undurable_records
      then s
      else let (accepted_at, storage1) = dev.now s.storage in
        let (mirrored_at, storage2) = dev.now storage1 in
        record s {
          storage = storage2;
          have_undurable_records = true;
          oldest_undurable_record = accepted_at;
          health = record s.health {
            health_oldest_undurable_ns = mirrored_at;
            health_have_undurable = true;
          };
        }

  abbrev pub count_anomaly : Bool → Impl S → Impl S
  count_anomaly anomaly s =
      if anomaly
      then record s {
        metrics = record s.metrics { time_anomalies = add64 s.metrics.time_anomalies 1 };
      }
      else s

  -- `append_impl` after its last test.
  unfoldable pub accept_record : PartitionOptions → List ℕ → ℤ → ℕ → Impl S → Impl S
  unfolding accepted_flags is_anomaly buffer_record note_undurable
  accept_record options bs time record_flags s =
      let anomaly = is_anomaly s.have_last_time s.last_time time options in
      let flags = accepted_flags record_flags in
      let flags = if anomaly then bit_or flags time_anomaly else flags in
      note_undurable (buffer_record bs time flags (count_anomaly anomaly s))

  unfoldable pub append_active : Option AppendContract → List ℕ → ℤ → ℕ → Impl S → Status × Impl S
  unfolding breaks_contract accept_record
  append_active expected bs time record_flags s = elim (active s) [
    | none ↦ (error ErrorCode.internal_error, s)
    | some p ↦
        if breaks_contract expected p.header.options
        then (error ErrorCode.invalid_argument, s)
        else (ok, accept_record p.header.options bs time record_flags s)
  ]

  -- `append_impl` after the tests of the record. A full builder is emitted first.
  unfoldable pub append_record : Option AppendContract → List ℕ → ℤ → ℕ → Impl S → Status × Impl S
  unfolding append_active
  append_record expected bs time record_flags s =
      (if ltb (sub64 s.volume.max_block_payload (length s.builder)) (length bs)
        then emit_builder dev s
        else (ok, s))
      >=> ensure_empty_builder_capacity dev
      >=> append_active expected bs time record_flags

  abbrev pub append_admitted : ByteView → ℤ → ℕ → Option AppendContract → Impl S → Status × Impl S
  append_admitted view time record_flags expected s =
      if empty view
      then (error ErrorCode.invalid_argument, s)
      else if not (valid view)
      then (error ErrorCode.invalid_argument, s)
      else if ltb s.volume.max_block_payload (size view)
      then (error ErrorCode.out_of_range, s)
      else append_record expected (contents view) time record_flags s

  unfoldable pub append_impl : ByteView → ℤ → ℕ → Option AppendContract → Impl S → Status × Impl S
  unfolding admitted append_record
  append_impl view time record_flags expected =
      admitted (append_admitted view time record_flags expected)

  unfoldable pub append : ByteView → ℤ → ℕ → Impl S → Status × Impl S
  unfolding append_impl
  append view time record_flags = append_impl view time record_flags none

  unfoldable pub append_checked : ByteView → ℤ → AppendContract → ℕ → Impl S → Status × Impl S
  unfolding append_impl
  append_checked view time expected record_flags s =
      if expected.record_format_id == 0
        || expected.record_format_version == 0
        || expected.time_domain_id == 0
      then (error ErrorCode.invalid_argument, s)
      else append_impl view time record_flags (some expected) s

  unfoldable pub publish : Impl S → Status × Impl S
  unfolding admitted
  publish = admitted (emit_builder dev)

  abbrev pub sync_if_dirty : Impl S → Status × Impl S
  sync_if_dirty s = if s.dirty then sync_media dev true s else (ok, s)

  abbrev pub checkpoint_admitted : Impl S → Status × Impl S
  checkpoint_admitted s = emit_builder dev s >=> sync_if_dirty

  unfoldable pub checkpoint : Impl S → Status × Impl S
  unfolding admitted
  checkpoint = admitted checkpoint_admitted

  abbrev pub mark_closed : Impl S → Impl S
  mark_closed s = record s { closed = true; health = record s.health { health_closed = true } }

  unfoldable pub close : Impl S → Status × Impl S
  close s =
      if s.closed
      then (ok, s)
      else if not s.writable
      then (ok, mark_closed s)
      else if s.faulted
      then (s.fault_status, s)
      else emit_builder dev s >=> sync_if_dirty >=> λ s'. (ok, mark_closed s')

  abbrev pub rotate_admitted : PartitionOptions → Impl S → Status × Impl S
  rotate_admitted next s =
      (validate_partition_options s.compression_codecs next, s) >=> emit_builder dev >=> λ s'.
      rotate_internal dev next (record s' { next_options = next })

  unfoldable pub rotate : PartitionOptions → Impl S → Status × Impl S
  unfolding admitted
  rotate next = admitted (rotate_admitted next)

  abbrev pub set_next_admitted : PartitionOptions → Impl S → Status × Impl S
  set_next_admitted options s =
      (validate_partition_options s.compression_codecs options, s) >=> λ s'.
      (ok, record s' { next_options = options })

  unfoldable pub set_next_partition_options : PartitionOptions → Impl S → Status × Impl S
  unfolding admitted
  set_next_partition_options options = admitted (set_next_admitted options)

module _ {S : Type 0} where
  unfoldable pub writer_status : Impl S → Status
  writer_status s =
      if not s.writable
      then error ErrorCode.invalid_argument
      else if s.closed
      then error ErrorCode.closed
      else if s.faulted
      then s.fault_status
      else ok

-- ===== src/Tests/RingStore.antt =====
-- A store of one partition on a device that keeps a list of the writes, and on one whose flush fails.
use tfdb.Prelude.{ℕ, ◌+◌, ◌*◌, ◌≡◌, refl, true, false, List, [], ◌∷◌, length, pos}
use tfdb.Status.{ErrorCode, ok, error, returns}
use tfdb.Bytes.{bytes}
use tfdb.Format.Volume.{VolumeHeader}
use tfdb.Format.Partition.{PartitionOptions}
use tfdb.RingStore.State.{Device, Impl, StoreMetrics, HealthMirror}
use tfdb.RingStore.Rotate.{header_for, new_partition}
use tfdb.Codec.{built_in_codec}
use tfdb.Format.{align_up}
use tfdb.RingStore.State.{◌>=>◌, find_at, codec_for, index_begin}
use tfdb.RingStore.Emit.{emit_builder}
use tfdb.RingStore.Media.{sync_media}
use tfdb.RingStore.Consistent.{IsConsistent}
use tfdb.RingStore.Append.{checkpoint}
use tfdb.RingStore.Run.{run_all, call_append, call_checkpoint, call_close, call_publish}
use tfdb.RingStore.Invariant.{run_all-IsConsistent}
use tfdb.RingStore.Latch.{run_all-stuck, checkpoint-latches}

abbrev pub Log : Type 0
Log = List (ℕ × List ℕ)

-- The clock advances with the writes.
abbrev pub log_device : Device Log
log_device = record {
  read = λ offset n log. (returns [], log);
  write = λ offset bs log. (ok, (offset, bs) ∷ log);
  flush = λ log. (ok, log);
  size = λ log. 0;
  is_writable = λ log. true;
  now = λ log. (length log, log);
}

abbrev failing_device : Device Log
failing_device = record log_device { flush = λ log. (error ErrorCode.io_error, log) }

abbrev pub plain_options : PartitionOptions
plain_options = record {
  compression = 0;
  compression_version = 1;
  record_format_id = 0;
  record_format_version = 0;
  time_domain_id = 1;
  allowed_backward_skew_ns = pos 0;
  allowed_forward_step_ns = pos 100;
}

abbrev pub small_volume : VolumeHeader
small_volume = record {
  volume_size = 4096 + 4 * 65536;
  partition_size = 65536;
  index_region_size = 4096;
  max_block_payload = 1024;
  persistence_quantum = 512;
  partition_count = 4;
  created_time_ns = pos 0;
  volume_id_high = 7;
  volume_id_low = 9;
}

abbrev pub no_store_metrics : StoreMetrics
no_store_metrics = record {
  accepted_records = 0;
  accepted_payload_bytes = 0;
  published_blocks = 0;
  stored_block_bytes = 0;
  raw_block_bytes = 0;
  checkpoints = 0;
  rotations = 0;
  time_anomalies = 0;
  overwritten_gaps = 0;
  corrupt_gaps = 0;
  durable_records = 0;
  durable_blocks = 0;
  sync_errors = 0;
  sync_calls = 0;
  last_sync_duration_ns = 0;
  max_sync_duration_ns = 0;
  max_accepted_to_durable_ns = 0;
}

abbrev clear_health : HealthMirror
clear_health = record {
  health_closed = false;
  health_faulted = false;
  health_fault_code = ok;
  health_have_undurable = false;
  health_oldest_undurable_ns = 0;
  health_last_sync_ns = 0;
  health_max_sync_ns = 0;
  health_sync_calls = 0;
  health_sync_errors = 0;
  health_checkpoints = 0;
}

abbrev pub empty_store : Impl Log
empty_store = record {
  storage = [];
  volume = small_volume;
  compression_codecs = [];
  writable = true;
  closed = false;
  faulted = false;
  fault_status = ok;
  partitions = new_partition (header_for small_volume 0 1 plain_options) ∷ [];
  active_generation = 1;
  active_slot = 0;
  writer_id_high = 3;
  writer_id_low = 4;
  next_options = plain_options;
  builder = [];
  builder_records = 0;
  builder_flags = 0;
  builder_min_time = pos 0;
  builder_max_time = pos 0;
  have_last_time = false;
  last_time = pos 0;
  dirty = false;
  have_undurable_records = false;
  oldest_undurable_record = 0;
  metrics = no_store_metrics;
  corrupt_slots = [];
  health = clear_health;
}

-- The store with one record in its builder.
abbrev pub waiting_store : Impl Log
waiting_store = record empty_store {
  builder = 10 ∷ 20 ∷ 30 ∷ [];
  builder_records = 1;
  builder_min_time = pos 5;
  builder_max_time = pos 5;
  have_last_time = true;
  last_time = pos 5;
  have_undurable_records = true;
  metrics = record no_store_metrics { accepted_records = 1; accepted_payload_bytes = 3 };
  health = record clear_health { health_have_undurable = true };
}

pub empty_store-IsConsistent : IsConsistent empty_store
empty_store-IsConsistent = (
  (refl, λ _. (refl, refl)),
  (λ no. absurd cc),
  (refl, refl, refl, refl, refl, refl, refl, refl, refl),
)

pub waiting_store-IsConsistent : IsConsistent waiting_store
waiting_store-IsConsistent = (
  (refl, λ no. absurd cc),
  (λ no. absurd cc),
  (refl, refl, refl, refl, refl, refl, refl, refl, refl),
)

checkpoint_fails : (checkpoint failing_device waiting_store).0 ≡ error ErrorCode.io_error
unfolding checkpoint ◌>=>◌ emit_builder find_at codec_for built_in_codec align_up index_begin
    sync_media
checkpoint_fails = refl

run_all-IsConsistent_example : IsConsistent (
    run_all failing_device
      (call_append (bytes (1 ∷ 2 ∷ [])) (pos 3) 0 ∷ call_checkpoint ∷ call_close ∷ [])
      empty_store)
run_all-IsConsistent_example =
    run_all-IsConsistent failing_device
      (call_append (bytes (1 ∷ 2 ∷ [])) (pos 3) 0 ∷ call_checkpoint ∷ call_close ∷ []) empty_store
      empty_store-IsConsistent

checkpoint-latches_example :
    ((checkpoint failing_device waiting_store).1.faulted ≡ true)
    × ((checkpoint failing_device waiting_store).1.fault_status ≡ error ErrorCode.io_error)
checkpoint-latches_example =
    checkpoint-latches failing_device waiting_store ErrorCode.io_error waiting_store-IsConsistent
      refl refl checkpoint_fails

-- The store after a fault.
abbrev stuck_store : Impl Log
stuck_store = record waiting_store { faulted = true; fault_status = error ErrorCode.io_error }

run_all-stuck_example :
    run_all log_device (call_publish ∷ call_checkpoint ∷ call_close ∷ []) stuck_store ≡ stuck_store
run_all-stuck_example =
    run_all-stuck log_device (call_publish ∷ call_checkpoint ∷ call_close ∷ []) stuck_store
      (refl, refl, refl)

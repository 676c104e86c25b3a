-- ===== src/RingStore/Opener/Assemble.antt =====
-- `open` as a whole: the identity of the writer, the recovered store, and its first partition.
use tfdb.Prelude.{
  ℕ, ◌+◌, ◌-◌, ◌%◌, ◌^◌, Bool, false, not, ◌&&◌, ◌||◌, Option, none, some, List, [], ◌∷◌, ◌==◌,
  if◌then◌else◌, length, pos,
}
use tfdb.Status.{ErrorCode, Status, ok, error, Result, returns, fails}
use tfdb.Format.Volume.{VolumeHeader}
use tfdb.Format.Partition.{PartitionOptions}
use tfdb.Codec.{CompressionCodec}
use tfdb.RingStore.State.{
  Device, Impl, PartitionState, StoreMetrics, HealthMirror, validate_partition_options, add64,
}
use tfdb.RingStore.Rotate.{create_partition}
use tfdb.RingStore.Formatter.{Draw, random_nonzero_id}
use tfdb.RingStore.Reader.Reads.{Reads, ◌>>=◌, ◌>>◌, require_ok}
use tfdb.RingStore.Opener.Headers.{read_volume}
use tfdb.RingStore.Opener.Recover.{nothing_found, recover_slots, arrange, last_partition}

pub record OpenOptions : Type 0 where
  pub open_writable : Bool
  pub verify_payloads_on_open : Bool
  pub next_partition : PartitionOptions
  pub open_codecs : List CompressionCodec
  pub open_writer_high : ℕ
  pub open_writer_low : ℕ
  pub allow_explicit_writer_id_for_testing : Bool

abbrev pub zero_metrics : StoreMetrics
zero_metrics = record {
  accepted_records = 0;
  accepted_payload_bytes = 0;
  published_blocks = 0;
  stored_block_bytes = 0;
  raw_block_bytes = 0;
  checkpoints = 0;
  rotations = 0;
  time_anomalies = 0;
  overwritten_gaps = 0;
  corrupt_gaps = 0;
  durable_records = 0;
  durable_blocks = 0;
  sync_errors = 0;
  sync_calls = 0;
  last_sync_duration_ns = 0;
  max_sync_duration_ns = 0;
  max_accepted_to_durable_ns = 0;
}

abbrev pub new_health : HealthMirror
new_health = record {
  health_closed = false;
  health_faulted = false;
  health_fault_code = ok;
  health_have_undurable = false;
  health_oldest_undurable_ns = 0;
  health_last_sync_ns = 0;
  health_max_sync_ns = 0;
  health_sync_calls = 0;
  health_sync_errors = 0;
  health_checkpoints = 0;
}

module _ {S : Type 0} where
  -- The store before the recovered partitions are taken over.
  abbrev pub new_store : VolumeHeader → OpenOptions → ℕ × ℕ → S → Impl S
  new_store v o writer_id s = record {
    storage = s;
    volume = v;
    compression_codecs = o.open_codecs;
    writable = o.open_writable;
    closed = false;
    faulted = false;
    fault_status = ok;
    partitions = [];
    active_generation = 0;
    active_slot = 0;
    writer_id_high = writer_id.0;
    writer_id_low = writer_id.1;
    next_options = o.next_partition;
    builder = [];
    builder_records = 0;
    builder_flags = 0;
    builder_min_time = pos 0;
    builder_max_time = pos 0;
    have_last_time = false;
    last_time = pos 0;
    dirty = false;
    have_undurable_records = false;
    oldest_undurable_record = 0;
    metrics = zero_metrics;
    corrupt_slots = [];
    health = new_health;
  }

  -- The newest partition is the active one.
  unfoldable pub adopt : List PartitionState → List ℕ → Impl S → Impl S
  unfolding last_partition
  adopt [] damaged s = record s { partitions = []; corrupt_slots = damaged }
  adopt (p ∷ ps) damaged s = record s {
    partitions = p ∷ ps;
    corrupt_slots = damaged;
    active_generation = (last_partition p ps).header.generation;
    active_slot = (last_partition p ps).header.slot;
  }

  -- `open` of a volume, up to the partition that a writer needs.
  unfoldable pub recover_store : Device S → VolumeHeader → OpenOptions → ℕ × ℕ → Reads S (Impl S)
  unfolding recover_slots arrange adopt
  recover_store dev v o writer_id = do
    require_ok
        (if o.open_writable then validate_partition_options o.open_codecs o.next_partition else ok)
    found ←
        recover_slots dev v o.open_codecs o.verify_payloads_on_open v.partition_count 0
          nothing_found
    λ s. (
      returns (adopt (arrange found.recovered) found.damaged_slots (new_store v o writer_id s)),
      s,
    )

module _ {S : Type 0} (dev : Device S) where
  -- The partition after a sealed one.
  unfoldable pub follow : PartitionState → Impl S → Status × Impl S
  unfolding create_partition
  follow newest s =
      if not newest.sealed
      then (ok, s)
      else if newest.header.generation == 2 ^ 64 - 1
      then (error ErrorCode.generation_exhausted, s)
      else create_partition dev ((newest.header.slot + 1) % 2 ^ 32 % s.volume.partition_count)
          (add64 newest.header.generation 1) s.next_options s

  unfoldable pub ready_active : List PartitionState → Impl S → Status × Impl S
  unfolding follow create_partition last_partition
  ready_active [] s = create_partition dev 0 1 s.next_options s
  ready_active (p ∷ ps) s = follow (last_partition p ps) s

  unfoldable pub ready : Impl S → Status × Impl S
  unfolding ready_active
  ready s =
      if not s.writable
      then (ok, s)
      else if not (length s.corrupt_slots == 0)
      then (error ErrorCode.corrupt, s)
      else ready_active s.partitions s

  abbrev pub store_or_error : Status × Impl S → Result (Impl S) × S
  store_or_error (ok, s) = (returns s, s.storage)
  store_or_error (error code, s) = (fails code, s.storage)

  unfoldable pub open_volume : VolumeHeader → OpenOptions → ℕ × ℕ → Reads S (Impl S)
  unfolding recover_store ready
  open_volume v o writer_id = do
    recovered ← recover_store dev v o writer_id
    λ s. store_or_error (ready recovered)

module _ {S : Type 0} (dev : Device S) (getrandom : ℕ → S → Draw × S) where
  -- Only a writer has an identity; a given one is for tests.
  unfoldable pub choose_writer : ℕ → OpenOptions → S → Option (Result (ℕ × ℕ) × S)
  unfolding random_nonzero_id
  choose_writer rounds o s =
      if not o.open_writable
      then some (returns (0, 0), s)
      else if not (o.open_writer_high == 0) || not (o.open_writer_low == 0)
      then some (
        if not o.allow_explicit_writer_id_for_testing
            then fails ErrorCode.invalid_argument
            else returns (o.open_writer_high, o.open_writer_low),
        s,
      )
      else random_nonzero_id dev getrandom rounds s

  abbrev pub open_as :
      VolumeHeader → OpenOptions → Option (Result (ℕ × ℕ) × S) → Option (Result (Impl S) × S)
  open_as v o none = none
  open_as v o (some (fails code, s)) = some (fails code, s)
  open_as v o (some (returns writer_id, s)) = some (open_volume dev v o writer_id s)

  abbrev pub open_read : ℕ → OpenOptions → Result VolumeHeader × S → Option (Result (Impl S) × S)
  open_read rounds o (fails code, s) = some (fails code, s)
  open_read rounds o (returns v, s) = open_as v o (choose_writer rounds o s)

  -- `none` stands for a loop over `getrandom` that has not ended in its rounds.
  unfoldable pub open_store : ℕ → OpenOptions → S → Option (Result (Impl S) × S)
  unfolding choose_writer read_volume open_volume
  open_store rounds o s =
      if o.open_writable && not (dev.is_writable s)
      then some (fails ErrorCode.invalid_argument, s)
      else open_read rounds o (read_volume dev s)

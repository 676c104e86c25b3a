-- ===== src/RingStore/Observe.antt =====
-- The operations of `RingStore` that only look: `inspect`, `active_partition_info`, `metrics` and `health`.
use tfdb.Prelude.{ℕ, ◌-◌, Bool, none, some, List, map, if◌then◌else◌, ℤ, pos}
use tfdb.Status.{ErrorCode, Status, Result, returns, fails}
use tfdb.Format.{partition_header_region_size}
use tfdb.Format.Partition.{PartitionOptions}
use tfdb.RingStore.State.{Device, Impl, PartitionState, StoreMetrics, active, sub64}

pub record PartitionInfo : Type 0 where
  pub slot : ℕ
  pub generation : ℕ
  pub sealed : Bool
  pub block_count : ℕ
  pub data_bytes : ℕ
  pub min_time_ns : ℤ
  pub max_time_ns : ℤ
  pub flags : ℕ
  pub options : PartitionOptions

pub record VolumeInfo : Type 0 where
  pub volume_size : ℕ
  pub partition_size : ℕ
  pub partition_count : ℕ
  pub index_region_size : ℕ
  pub max_block_payload : ℕ
  pub persistence_quantum : ℕ
  pub volume_id_high : ℕ
  pub volume_id_low : ℕ
  pub partitions : List PartitionInfo

pub record WriterHealth : Type 0 where
  pub writable : Bool
  pub closed : Bool
  pub faulted : Bool
  pub fault_code : Status
  pub oldest_undurable_age_ns : ℕ
  pub last_sync_duration_ns : ℕ
  pub max_sync_duration_ns : ℕ
  pub sync_calls : ℕ
  pub sync_errors : ℕ
  pub checkpoints : ℕ

abbrev pub partition_info : PartitionState → PartitionInfo
partition_info p = record {
  slot = p.header.slot;
  generation = p.header.generation;
  sealed = p.sealed;
  block_count = if p.sealed then p.footer.block_count else p.block_count;
  data_bytes = sub64 p.data_end partition_header_region_size;
  min_time_ns = if p.has_time then p.min_time_ns else pos 0;
  max_time_ns = if p.has_time then p.max_time_ns else pos 0;
  flags = p.aggregate_flags;
  options = p.header.options;
}

module _ {S : Type 0} where
  unfoldable pub active_partition_info : Impl S → Result PartitionInfo
  active_partition_info s = elim (active s) [
    | none ↦ fails ErrorCode.closed
    | some p ↦ returns (partition_info p)
  ]

  unfoldable pub inspect : Impl S → VolumeInfo
  inspect s = record {
    volume_size = s.volume.volume_size;
    partition_size = s.volume.partition_size;
    partition_count = s.volume.partition_count;
    index_region_size = s.volume.index_region_size;
    max_block_payload = s.volume.max_block_payload;
    persistence_quantum = s.volume.persistence_quantum;
    volume_id_high = s.volume.volume_id_high;
    volume_id_low = s.volume.volume_id_low;
    partitions = map partition_info s.partitions;
  }

  module _ (dev : Device S) where
    -- `metrics`: the counters, and the age of the oldest record that is not durable. A difference of
    -- the steady clock's readings is converted to 64 bits.
    unfoldable pub metrics : Impl S → (StoreMetrics × ℕ) × Impl S
    metrics s =
        if s.have_undurable_records
        then (let (at, storage') = dev.now s.storage in
            ((s.metrics, sub64 at s.oldest_undurable_record), record s { storage = storage' }))
        else ((s.metrics, 0), s)

    abbrev pub observe : ℕ → Impl S → WriterHealth
    observe age s = record {
      writable = s.writable;
      closed = s.health.health_closed;
      faulted = s.health.health_faulted;
      fault_code = s.health.health_fault_code;
      oldest_undurable_age_ns = age;
      last_sync_duration_ns = s.health.health_last_sync_ns;
      max_sync_duration_ns = s.health.health_max_sync_ns;
      sync_calls = s.health.health_sync_calls;
      sync_errors = s.health.health_sync_errors;
      checkpoints = s.health.health_checkpoints;
    }

    -- `health`, which reads the atomics only.
    unfoldable pub health : Impl S → WriterHealth × Impl S
    health s =
        if s.health.health_have_undurable
        then (let (at, storage') = dev.now s.storage in
            (observe (at - s.health.health_oldest_undurable_ns) s, record s { storage = storage' }))
        else (observe 0 s, s)

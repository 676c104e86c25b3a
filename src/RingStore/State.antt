-- ===== src/RingStore/State.antt =====
-- The state of `RingStore::Impl`, and the backend that it calls through `Storage`. The mutex is held
-- by every operation modelled here, so an operation is one function of the state. The 64-bit counters
-- and sums wrap as `std::uint64_t` does.
use tfdb.Prelude.{
  ℕ, ◌+◌, ◌-◌, ◌*◌, ◌%◌, ◌^◌, Bool, true, false, not, ◌&&◌, Option, none, some, List, [], ◌∷◌, ◌==◌,
  if◌then◌else◌, ℤ,
}
use tfdb.Status.{ErrorCode, Status, ok, error, Result, is_ok}
use tfdb.Format.Volume.{VolumeHeader}
use tfdb.Format.Index.{IndexEntry}
use tfdb.Format.Footer.{PartitionFooter}
use tfdb.Format.Partition.{PartitionHeader, PartitionOptions}
use tfdb.Format.{volume_prefix_size, partition_footer_region_size}
use tfdb.Codec.{CompressionCodec, built_in_codec}
use mathlib.Core.Bool.{xor}

abbrev pub add64 : ℕ → ℕ → ℕ
add64 a b = (a + b) % 2 ^ 64

-- `a - b`, for numbers below 2 ^ 64
abbrev pub sub64 : ℕ → ℕ → ℕ
sub64 a b = (a + 2 ^ 64 - b) % 2 ^ 64

-- `read_exact`, `write_exact` and `flush` of a backend, and the steady clock. The state of the backend
-- and of the clock is an `S`, which each call changes.
pub record Device (S : Type 0) : Type 0 where
  pub read : ℕ → ℕ → S → Result (List ℕ) × S
  pub write : ℕ → List ℕ → S → Status × S
  pub flush : S → Status × S
  pub size : S → ℕ
  pub is_writable : S → Bool
  pub now : S → ℕ × S

-- The ages are computed when the metrics are read, so they are no fields.
pub record StoreMetrics : Type 0 where
  pub accepted_records : ℕ
  pub accepted_payload_bytes : ℕ
  pub published_blocks : ℕ
  pub stored_block_bytes : ℕ
  pub raw_block_bytes : ℕ
  pub checkpoints : ℕ
  pub rotations : ℕ
  pub time_anomalies : ℕ
  pub overwritten_gaps : ℕ
  pub corrupt_gaps : ℕ
  pub durable_records : ℕ
  pub durable_blocks : ℕ
  pub sync_errors : ℕ
  pub sync_calls : ℕ
  pub last_sync_duration_ns : ℕ
  pub max_sync_duration_ns : ℕ
  pub max_accepted_to_durable_ns : ℕ

-- The atomics that `health()` reads.
pub record HealthMirror : Type 0 where
  pub health_closed : Bool
  pub health_faulted : Bool
  pub health_fault_code : Status
  pub health_have_undurable : Bool
  pub health_oldest_undurable_ns : ℕ
  pub health_last_sync_ns : ℕ
  pub health_max_sync_ns : ℕ
  pub health_sync_calls : ℕ
  pub health_sync_errors : ℕ
  pub health_checkpoints : ℕ

pub record PartitionState : Type 0 where
  pub header : PartitionHeader
  pub sealed : Bool
  pub index_valid : Bool
  pub footer : PartitionFooter
  pub active_index : List IndexEntry
  pub data_end : ℕ
  pub aggregate_flags : ℕ
  pub has_time : Bool
  pub block_count : ℕ
  pub min_time_ns : ℤ
  pub max_time_ns : ℤ

pub record Impl (S : Type 0) : Type 0 where
  pub storage : S
  pub volume : VolumeHeader
  pub compression_codecs : List CompressionCodec
  pub writable : Bool
  pub closed : Bool
  pub faulted : Bool
  pub fault_status : Status
  pub partitions : List PartitionState
  pub active_generation : ℕ
  pub active_slot : ℕ
  pub writer_id_high : ℕ
  pub writer_id_low : ℕ
  pub next_options : PartitionOptions
  pub builder : List ℕ
  pub builder_records : ℕ
  pub builder_flags : ℕ
  pub builder_min_time : ℤ
  pub builder_max_time : ℤ
  pub have_last_time : Bool
  pub last_time : ℤ
  pub dirty : Bool
  pub have_undurable_records : Bool
  pub oldest_undurable_record : ℕ
  pub metrics : StoreMetrics
  pub corrupt_slots : List ℕ
  pub health : HealthMirror

-- A chain of steps on a state, which stops at the first error and keeps what was changed before it.
infixl 5 ◌>=>◌
unfoldable pub ◌>=>◌ {ℓ} : {A : Type ℓ} → Status × A → (A → Status × A) → Status × A
m >=> f = if is_ok m.0 then f m.1 else m

unfoldable pub partition_base : VolumeHeader → ℕ → ℕ
partition_base v slot = add64 volume_prefix_size (slot * v.partition_size)

unfoldable pub index_begin : VolumeHeader → ℕ
index_begin v = sub64 (sub64 v.partition_size partition_footer_region_size) v.index_region_size

unfoldable pub footer_offset : VolumeHeader → ℕ
footer_offset v = sub64 v.partition_size partition_footer_region_size

-- The test of `active`.
abbrev pub is_at : ℕ → ℕ → PartitionState → Bool
is_at generation slot p = p.header.generation == generation && p.header.slot == slot

unfoldable pub find_at : ℕ → ℕ → List PartitionState → Option PartitionState
find_at generation slot [] = none
find_at generation slot (p ∷ ps) =
    if is_at generation slot p then some p else find_at generation slot ps

-- What is assigned through the pointer that `active` returns.
unfoldable pub put_at : ℕ → ℕ → PartitionState → List PartitionState → List PartitionState
put_at generation slot q [] = []
put_at generation slot q (p ∷ ps) =
    if is_at generation slot p then q ∷ ps else p ∷ put_at generation slot q ps

-- `codec_for` after the built-in codecs.
unfoldable pub find_codec : ℕ → ℕ → List CompressionCodec → Option CompressionCodec
find_codec id version [] = none
find_codec id version (c ∷ cs) =
    if c.id == id && c.version == version then some c else find_codec id version cs

abbrev pub matching_version : ℕ → Option CompressionCodec → Option CompressionCodec
matching_version version none = none
matching_version version (some c) = if c.version == version then some c else none

abbrev pub or_else : Option CompressionCodec → Option CompressionCodec → Option CompressionCodec
or_else none d = d
or_else (some c) d = some c

unfoldable pub codec_for : List CompressionCodec → ℕ → ℕ → Option CompressionCodec
unfolding find_codec
codec_for codecs id version =
    or_else (matching_version version (built_in_codec id)) (find_codec id version codecs)

abbrev pub is_some {ℓ} : {A : Type ℓ} → Option A → Bool
is_some none = false
is_some (some a) = true

unfoldable pub validate_partition_options : List CompressionCodec → PartitionOptions → Status
validate_partition_options codecs o =
    if not (is_some (codec_for codecs o.compression o.compression_version))
    then error ErrorCode.unsupported
    else if o.time_domain_id == 0
    then error ErrorCode.invalid_argument
    else if xor (o.record_format_id == 0) (o.record_format_version == 0)
    then error ErrorCode.invalid_argument
    else ok

module _ {S : Type 0} where
  abbrev pub active : Impl S → Option PartitionState
  active s = find_at s.active_generation s.active_slot s.partitions

  abbrev pub set_active : Impl S → PartitionState → Impl S
  set_active s q = record s { partitions = put_at s.active_generation s.active_slot q s.partitions }

  -- `fail`, of a status that is an error. (Of `ok` it does nothing; no caller passes that.)
  unfoldable pub fail : ErrorCode → Impl S → Status × Impl S
  fail code s = (
    error code,
    record s {
      faulted = true;
      fault_status = error code;
      health = record s.health { health_faulted = true; health_fault_code = error code };
    },
  )

-- ===== src/RingStore/Reader/Events.antt =====
-- The events that a query delivers, and the state that it goes through.
use tfdb.Prelude.{ℕ, Bool, true, false, not, ◌&&◌, ◌||◌, List, [], ◌==◌, length, ℤ, pos, ltb_ℤ}
use tfdb.Status.{ErrorCode, Status, ok, error, Result, returns, fails}
use tfdb.Format.Index.{IndexEntry}
use tfdb.RingStore.State.{PartitionState, StoreMetrics, add64}
use tfdb.RingStore.Reader.Reads.{Reads}
use tfdb.RingStore.Reader.Scan.{Scanned}
use tfdb.RingStore.Reader.Block.{BlockMetadata}

pub data BlockEventKind : Type 0 where
  data_ overwritten_gap corrupt_gap : BlockEventKind

pub record BlockEvent : Type 0 where
  pub kind : BlockEventKind
  pub metadata : BlockMetadata
  pub data_ : List ℕ
  pub detail : Status

pub record TimeRange : Type 0 where
  pub begin_ns : ℤ
  pub end_ns : ℤ
  pub time_domain_id : ℕ

-- The deprecated `verify_payload_crc` is ignored by the program.
pub record QueryOptions : Type 0 where
  pub continue_on_gap : Bool

unfoldable pub ranges_intersect : ℤ → ℤ → TimeRange → Bool
ranges_intersect min_time max_time range =
    ltb_ℤ min_time range.end_ns && not (ltb_ℤ max_time range.begin_ns)

-- A `BlockMetadata` that nothing was assigned to.
abbrev pub no_metadata : BlockMetadata
no_metadata = record {
  partition_slot = 0;
  partition_generation = 0;
  block_sequence = 0;
  record_count = 0;
  min_time_ns = pos 0;
  max_time_ns = pos 0;
  flags = 0;
  compression = 0;
  stored_size = 0;
  raw_size = 0;
  physical_offset = 0;
  record_format_id = 0;
  record_format_version = 0;
  time_domain_id = 0;
}

abbrev pub is_corrupt : ErrorCode → Bool
is_corrupt ErrorCode.corrupt = true
is_corrupt code = false

-- The kind of the event for a block that could not be read.
abbrev pub gap_kind : ErrorCode → BlockEventKind
gap_kind ErrorCode.overwritten = BlockEventKind.overwritten_gap
gap_kind code = BlockEventKind.corrupt_gap

abbrev pub gap : BlockEventKind → ErrorCode → BlockMetadata → BlockEvent
gap kind code metadata = record {
  kind = kind;
  metadata = metadata;
  data_ = [];
  detail = error code;
}

abbrev pub data_event : BlockMetadata → List ℕ → BlockEvent
data_event metadata decoded = record {
  kind = BlockEventKind.data_;
  metadata = metadata;
  data_ = decoded;
  detail = ok;
}

abbrev pub partition_metadata : PartitionState → BlockMetadata
partition_metadata p = record no_metadata {
  partition_slot = p.header.slot;
  partition_generation = p.header.generation;
}

-- How the entries of a partition were acquired.
pub record Acquired : Type 0 where
  pub selected_entries : List IndexEntry
  pub scanned_end : ℕ
  pub corrupt_scan : Bool
  pub invalid_sealed_index : Bool
  pub rescanned_unsealed : Bool

abbrev pub from_index : List IndexEntry → Acquired
from_index entries = record {
  selected_entries = entries;
  scanned_end = 0;
  corrupt_scan = false;
  invalid_sealed_index = false;
  rescanned_unsealed = false;
}

abbrev pub from_scan : Bool → Bool → Scanned → Acquired
from_scan invalid rescanned scanned = record {
  selected_entries = scanned.entries;
  scanned_end = scanned.data_end;
  corrupt_scan = scanned.stopped_on_corruption;
  invalid_sealed_index = invalid;
  rescanned_unsealed = rescanned;
}

-- `invalid_sealed_prefix || invalid_unsealed_prefix`
abbrev pub invalid_prefix : PartitionState → Acquired → Bool
invalid_prefix p a =
    (p.sealed
      && (a.invalid_sealed_index
          || a.corrupt_scan
          || not (length a.selected_entries == p.footer.block_count)
          || (not (a.scanned_end == 0) && not (a.scanned_end == p.footer.data_end))))
    || (a.rescanned_unsealed
        && (a.corrupt_scan
            || not (a.scanned_end == p.data_end)
            || not (length a.selected_entries == p.block_count)))

-- What a query changes: the backend, the store's counts of gaps, and the state of the visitor.
pub record Session (S V : Type 0) : Type 0 where
  pub storage : S
  pub metrics : StoreMetrics
  pub visited : V

-- Whether a query goes on after a step, or returns.
pub data Flow : Type 0 where
  continues : Flow
  finishes : Status → Flow

abbrev pub count_gap : BlockEventKind → StoreMetrics → StoreMetrics
count_gap BlockEventKind.overwritten_gap m = record m {
  overwritten_gaps = add64 m.overwritten_gaps 1;
}
count_gap kind m = record m { corrupt_gaps = add64 m.corrupt_gaps 1 }

module _ {S V : Type 0} where
  -- A step, and what follows if the query goes on.
  unfoldable pub proceed :
      Flow × Session S V → (Session S V → Flow × Session S V) → Flow × Session S V
  proceed (continues, q) next = next q
  proceed (finishes status, q) next = (finishes status, q)

  -- What follows a read, on the state of the query that the read leaves.
  unfoldable pub after_result {ℓ} :
      {A : Type ℓ}
      → Result A × S
      → Session S V
      → (ErrorCode → Session S V → Flow × Session S V)
      → (A → Session S V → Flow × Session S V)
      → Flow × Session S V
  after_result (fails code, s') q handler next = handler code (record q { storage = s' })
  after_result (returns a, s') q handler next = next a (record q { storage = s' })

  unfoldable pub with_read {ℓ} :
      {A : Type ℓ}
      → Reads S A
      → Session S V
      → (ErrorCode → Session S V → Flow × Session S V)
      → (A → Session S V → Flow × Session S V)
      → Flow × Session S V
  unfolding after_result
  with_read m q handler next = after_result (m q.storage) q handler next

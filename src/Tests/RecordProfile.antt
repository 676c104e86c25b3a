-- ===== src/Tests/RecordProfile.antt =====
-- Framed records: encoded, decoded, appended, and queried.
use tfdb.Prelude.{some, ℕ, ◌≡◌, refl, Bool, true, false, List, [], ◌∷◌, map, pos, negsuc, arith}
use tfdb.Status.{Status, ok, returns}
use tfdb.Bytes.{bytes}
use tfdb.Format.{align_up}
use tfdb.Format.Partition.{PartitionOptions, encode_partition_header}
use tfdb.RingStore.State.{active, PartitionState, Impl, ◌>=>◌, find_at, index_begin}
use tfdb.RingStore.Rotate.{header_for, new_partition, ensure_empty_builder_capacity}
use tfdb.RingStore.Append.{append_checked, checkpoint}
use tfdb.RingStore.Reader.Events.{BlockEventKind, Session}
use tfdb.RecordProfile.Frame.{RecordView, decode_block, framed_record_v1_profile_id, encode}
use tfdb.RecordProfile.Fields.{FramedRecord, view_of}
use tfdb.RecordProfile.RoundTrip.{visit_all, frames, decode_block-frames}
use tfdb.RecordProfile.Append.{TakesFrame, append_framed_record, append_framed_record-contract}
use tfdb.RecordProfile.Query.{
  RecordQuery, RecordEvent, RecordRun, query_records, framed_record_v1, outside,
}
use tfdb.RecordProfile.Selected.{IsWanted, query_records-wanted}
use tfdb.Tests.RingStore.{
  Log, log_device, empty_store, small_volume, plain_options, no_store_metrics,
}
use tfdb.Tests.Reader.{disk}
use tfdb.RingStore.Reader.Block.{BlockMetadata}

abbrev two_records : List FramedRecord
two_records =
    record { time = pos 5; selector = 7; flags = 0; payload = 1 ∷ 2 ∷ [] }
    ∷ record { time = negsuc 2; selector = 8; flags = 1; payload = [] }
    ∷ []

abbrev times : RecordView → List ℕ → Bool × List ℕ
times r seen = (true, r.selector ∷ seen)

decode_block-frames_example :
    decode_block times (bytes (frames two_records)) []
    ≡ visit_all times (map view_of two_records) []
decode_block-frames_example = decode_block-frames times two_records [] (
  (omega arith, omega arith, omega arith, omega arith),
  ((omega arith, omega arith, omega arith, omega arith), tt),
)

abbrev profile_options : PartitionOptions
profile_options = record plain_options {
  record_format_id = framed_record_v1_profile_id;
  record_format_version = 1;
}

abbrev profile_store : Impl Log
profile_store = record empty_store {
  storage =
      (8192, encode_partition_header (header_for small_volume 0 1 profile_options) 65536 4096) ∷ [];
  partitions = new_partition (header_for small_volume 0 1 profile_options) ∷ [];
}

appended :
    (append_framed_record log_device (λ s. s) (pos 5) 7 1 (bytes (1 ∷ 2 ∷ [])) profile_store).0 ≡ ok
unfolding append_framed_record append_checked ◌>=>◌ ensure_empty_builder_capacity find_at align_up
    index_begin
appended = refl

append_framed_record-contract_example :
    (p : PartitionState) × (encoded : List ℕ) × (active profile_store ≡ some p)
    × (encode (pos 5) 7 1 (bytes (1 ∷ 2 ∷ [])) ≡ returns encoded)
    × TakesFrame log_device p.header.options.time_domain_id encoded
        (append_framed_record log_device (λ s. s) (pos 5) 7 1 (bytes (1 ∷ 2 ∷ [])) profile_store).1
append_framed_record-contract_example =
    append_framed_record-contract log_device (λ s. s) (pos 5) 7 1 (bytes (1 ∷ 2 ∷ [])) profile_store
      refl appended

abbrev first_records : RecordQuery
first_records = record {
  time = record { begin_ns = pos 0; end_ns = pos 10; time_domain_id = 1 };
  selectors = 7 ∷ [];
  block_options = record { continue_on_gap = true };
}

stored_records : Impl Log
stored_records =
    (checkpoint disk
      (append_framed_record disk (λ s. s) (pos 50) 7 0 (bytes (3 ∷ []))
        (append_framed_record disk (λ s. s) (pos 6) 8 0 (bytes (3 ∷ []))
          (append_framed_record disk (λ s. s) (pos 5) 7 1 (bytes (1 ∷ 2 ∷ []))
            profile_store).1).1).1).1

abbrev collect_record : RecordEvent → List RecordView → Bool × List RecordView
collect_record event seen = elim event.kind [
  | BlockEventKind.data_ ↦ (true, event.record_ ∷ seen)
  | _ ↦ (true, seen)
]

abbrev start_records : Session Log (RecordRun (List RecordView))
start_records = record {
  storage = stored_records.storage;
  metrics = no_store_metrics;
  visited = record { keep_going = true; decode_status = ok; visited = [] };
}

found_records : List RecordView
found_records =
    (query_records collect_record first_records framed_record_v1 disk small_volume []
      stored_records.partitions [] start_records).1.visited.visited

abbrev AllInside : List RecordView → Type 0
AllInside [] = Unit {0}
AllInside (r ∷ rs) = (outside first_records.time r.index_time_ns ≡ false) × AllInside rs

collect_record-keeps :
    (kind : BlockEventKind) (m : BlockMetadata) (r : RecordView) (detail : Status)
    (seen : List RecordView)
    → IsWanted first_records (record { kind = kind; block = m; record_ = r; detail = detail })
    → AllInside seen
    → AllInside
        (collect_record (record { kind = kind; block = m; record_ = r; detail = detail }) seen).1
collect_record-keeps BlockEventKind.data_ m r detail seen (wanted, fine) h = (wanted.inside, h)
collect_record-keeps BlockEventKind.overwritten_gap m r detail seen wanted h = h
collect_record-keeps BlockEventKind.corrupt_gap m r detail seen wanted h = h

query_records-wanted_example : AllInside found_records
unfolding found_records
query_records-wanted_example =
    query_records-wanted collect_record first_records AllInside
      (λ event seen wanted h.
        collect_record-keeps event.kind event.block event.record_ event.detail seen wanted h)
      disk small_volume [] stored_records.partitions [] start_records tt

-- ===== src/Tests/Reader.antt =====
-- A block that the writer has written, read back from a log of the writes.
use tfdb.Prelude.{
  arith, ◌≤◌, ℕ, ◌+◌, ◌-◌, ◌&&◌, ◌≡◌, refl, Bool, true, false, leb, if◌then◌else◌, List, [], ◌∷◌,
  ◌++◌, length, take, drop, replicate, pos,
}
use tfdb.Status.{Status, returns}
use tfdb.Format.Partition.{encode_partition_header}
use tfdb.RingStore.State.{partition_base, index_begin, PartitionState, Device, Impl}
use tfdb.RingStore.Rotate.{footer_of, new_partition, header_for}
use tfdb.RingStore.Append.{checkpoint}
use tfdb.RingStore.Reader.Events.{BlockEventKind, BlockEvent, TimeRange}
use tfdb.RingStore.Reader.Query.{query, query_blocks}
use tfdb.Tests.RingStore.{
  Log, log_device, waiting_store, small_volume, plain_options, no_store_metrics,
}
use tfdb.RingStore.Reader.Index.{check_entries, load_index}
use tfdb.Format.Index.{load_index_entry, decode_index_entry, decode_index, encode_index, IndexEntry}
use tfdb.RingStore.Reader.Chain.{load_index-IsWhole, IsWhole}
use tfdb.RingStore.Reader.Slots.{bad_footer}
use tfdb.RingStore.Reader.Delivered.{IsRelevant, query-relevant}
use tfdb.RingStore.Reader.Block.{BlockMetadata}
use tfdb.RingStore.Reader.Scan.{at_start, Scanned, scan_partition}
use tfdb.RingStore.Reader.Reads.{◌>>◌, ◌>>=◌, after_read, lift, give}
use tfdb.Format.{same_bytes, magic_is, common_check, align_up}
use tfdb.Format.Block.{load_block_header, decode_block_header, BlockHeader, encode_block_header}
use tfdb.RingStore.Reader.Scanned.{scan_partition-IsScan, IsScan}
use tfdb.Crc.{crc32c_with_zeroed_field, crc32c_step, crc32c}
use tfdb.Bytes.{le_bytes, gather}

-- The latest write that covers a range, or zeros.
abbrev read_log : ℕ → ℕ → Log → List ℕ
read_log offset n [] = replicate n 0
read_log offset n ((at, bs) ∷ log) =
    if leb at offset && leb (offset + n) (at + length bs)
    then take n (drop (offset - at) bs)
    else read_log offset n log

abbrev pub disk : Device Log
disk = record log_device { read = λ offset n log. (returns (read_log offset n log), log) }

abbrev pub formatted : Log
formatted =
    (8192, encode_partition_header (header_for small_volume 0 1 plain_options) 65536 4096) ∷ []

pub written : Impl Log
written = (checkpoint disk (record waiting_store { storage = formatted })).1

abbrev collect : BlockEvent → List (List ℕ) → Bool × List (List ℕ)
collect event seen = (true, event.data_ ∷ seen)

abbrev first_times : TimeRange
first_times = record { begin_ns = pos 0; end_ns = pos 10; time_domain_id = 1 }

found : Status × List (List ℕ)
found =
    let r =
      query_blocks disk small_volume [] collect (record { continue_on_gap = true }) first_times
        written.partitions []
        (record { storage = written.storage; metrics = no_store_metrics; visited = [] }) in
    (r.0, r.1.visited)

abbrev AllSmall : List (List ℕ) → Type 0
AllSmall [] = Unit {0}
AllSmall (bs ∷ seen) = (length bs ≤ 1024) × AllSmall seen

small_event :
    (kind : BlockEventKind) (m : BlockMetadata) (bs : List ℕ) (detail : Status)
    → IsRelevant small_volume false first_times
        (record { kind = kind; metadata = m; data_ = bs; detail = detail })
    → length bs ≤ 1024
small_event BlockEventKind.data_ m bs detail (answer, fine) =
    omega (arith, answer.sized, answer.bounded)
small_event BlockEventKind.overwritten_gap m bs detail (none_, code, e) = rw none_ (omega arith)
small_event BlockEventKind.corrupt_gap m bs detail (none_, code, e) = rw none_ (omega arith)

query-relevant_example :
    AllSmall
      (query disk small_volume [] collect
        (record { continue_on_gap = true })
        false
        first_times
        written.partitions
        []
        (record { storage = written.storage; metrics = no_store_metrics; visited = [] })).1.visited
query-relevant_example =
    query-relevant disk small_volume [] collect (record { continue_on_gap = true }) false
      first_times AllSmall
      (λ event seen relevant h.
        (small_event event.kind event.metadata event.data_ event.detail relevant, h))
      written.partitions []
      (record { storage = written.storage; metrics = no_store_metrics; visited = [] }) tt

abbrev stored_entry : IndexEntry
stored_entry = record {
  offset = 4096;
  frame_size = 131;
  frame_span = 512;
  sequence = 0;
  record_count = 1;
  min_time_ns = pos 5;
  max_time_ns = pos 5;
  flags = 0;
  raw_size = 3;
  writer_id_high = 0;
  writer_id_low = 0;
}

-- The partition after its seal, and the index on the media.
abbrev sealed_partition : PartitionState
sealed_partition =
    let p = record (new_partition (header_for small_volume 0 1 plain_options)) {
      active_index = stored_entry ∷ [];
      data_end = 4608;
      has_time = true;
      min_time_ns = pos 5;
      max_time_ns = pos 5;
    } in
    record p { sealed = true; footer = footer_of small_volume p }

abbrev index_media : Log
index_media = (65536, encode_index (stored_entry ∷ [])) ∷ []

loaded : (load_index disk small_volume sealed_partition index_media).0 ≡ returns (stored_entry ∷ [])
unfolding load_index ◌>>=◌ ◌>>◌ give lift after_read index_begin partition_base encode_index
    decode_index check_entries align_up crc32c crc32c_step decode_index_entry load_index_entry
    gather
loaded = refl

footer_is_fine : bad_footer small_volume sealed_partition.header sealed_partition.footer ≡ false
unfolding index_begin encode_index
footer_is_fine = refl

load_index-IsWhole_example : IsWhole small_volume sealed_partition (stored_entry ∷ [])
unfolding index_begin
load_index-IsWhole_example =
    load_index-IsWhole disk small_volume sealed_partition index_media (stored_entry ∷ [])
      (omega arith) footer_is_fine loaded

abbrev stored_payload : List ℕ
stored_payload = 10 ∷ 20 ∷ 30 ∷ []

abbrev stored_block : BlockHeader
stored_block = record {
  generation = 1;
  slot = 0;
  sequence = 0;
  flags = 0;
  record_count = 1;
  stored_size = 3;
  raw_size = 3;
  frame_span = 512;
  min_time_ns = pos 5;
  max_time_ns = pos 5;
  compression = 0;
  compression_version = 1;
  payload_crc = crc32c stored_payload;
  volume_id_low = 9;
  volume_id_high = 7;
  writer_id_high = 3;
  writer_id_low = 4;
  previous_writer_id_high = 0;
  previous_writer_id_low = 0;
}

abbrev block_media : Log
block_media = (12288, encode_block_header stored_block ++ stored_payload) ∷ []

abbrev one_block : Scanned
one_block = record {
  entries = (record stored_entry { writer_id_high = 3; writer_id_low = 4 }) ∷ [];
  data_end = 4608;
  stopped_on_corruption = false;
}

scanned_block :
    (scan_partition disk small_volume
      (header_for small_volume 0 1 plain_options)
      4608
      block_media).0
    ≡ returns one_block
unfolding scan_partition ◌>>=◌ ◌>>◌ give lift after_read index_begin partition_base crc32c
    crc32c_step gather align_up decode_block_header encode_block_header load_block_header
    common_check magic_is same_bytes crc32c_with_zeroed_field le_bytes
scanned_block = refl

scan_partition-IsScan_example :
    IsScan small_volume (header_for small_volume 0 1 plain_options) 4608 at_start one_block
unfolding index_begin
scan_partition-IsScan_example =
    scan_partition-IsScan disk small_volume (header_for small_volume 0 1 plain_options) 4608
      block_media one_block (omega arith) scanned_block

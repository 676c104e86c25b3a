-- ===== src/RingStore/Reader/Query.antt =====
-- `query`, with `query_blocks` and `scan_blocks`. The snapshot is taken under the mutex; after it the
-- writer may go on, and what it does to the media is a change of the backend between two reads.
use tfdb.Prelude.{
  ℕ, Bool, true, false, not, ◌&&◌, ◌||◌, List, [], ◌∷◌, ◌==◌, if◌then◌else◌, length, pos, ltb_ℤ,
}
use tfdb.Status.{ErrorCode, Status, ok, error}
use tfdb.Format.{partition_header_region_size}
use tfdb.Format.Volume.{VolumeHeader}
use tfdb.Format.Index.{IndexEntry}
use tfdb.Codec.{CompressionCodec}
use tfdb.RingStore.State.{Device, PartitionState}
use tfdb.RingStore.Reader.Reads.{Reads, ◌>>=◌, ◌>>◌, give, reject, catch}
use tfdb.RingStore.Reader.Slots.{read_partition_header}
use tfdb.RingStore.Rotate.{sort_by_generation}
use tfdb.RingStore.Reader.Scan.{scan_partition}
use tfdb.RingStore.Reader.Index.{load_index}
use tfdb.RingStore.Reader.Block.{BlockMetadata, is_operational, read_block}
use tfdb.RingStore.Reader.Events.{
  data_event, count_gap, from_scan, finishes, no_metadata, gap_kind, partition_metadata, continues,
  invalid_prefix, is_corrupt, from_index, gap, Acquired, ranges_intersect, Flow, with_read,
  BlockEventKind, TimeRange, Session, proceed, QueryOptions, BlockEvent,
}

module _ {S V : Type 0} (dev : Device S) (v : VolumeHeader) (codecs : List CompressionCodec)
    (visitor : BlockEvent → V → Bool × V) (options : QueryOptions) where
  -- The call of the visitor, which ends the query with `ok` if it answers no.
  unfoldable pub deliver : BlockEvent → Session S V → Flow × Session S V
  deliver event q =
      let (keep, visited') = visitor event q.visited in
      (if keep then continues else finishes ok, record q { visited = visited' })

  -- A gap is counted and delivered, and ends the query unless the options say to go on.
  unfoldable pub report_gap :
      BlockEventKind → ErrorCode → BlockMetadata → Session S V → Flow × Session S V
  unfolding proceed deliver
  report_gap kind code metadata q =
      proceed (deliver (gap kind code metadata) (record q { metrics = count_gap kind q.metrics }))
        (λ q'. (if options.continue_on_gap then continues else finishes (error code), q'))

  unfoldable pub query_slots : List ℕ → Session S V → Flow × Session S V
  unfolding proceed report_gap
  query_slots [] q = (continues, q)
  query_slots (slot ∷ slots) q =
      proceed
        (report_gap BlockEventKind.corrupt_gap ErrorCode.corrupt
          (record no_metadata { partition_slot = slot }) q)
        (query_slots slots)

  -- The scan after an index that is corrupt.
  unfoldable pub fall_back : PartitionState → Bool → ErrorCode → Reads S Acquired
  unfolding scan_partition
  fall_back p rescanned code = do
    reject (not (is_corrupt code)) code
    scanned ← scan_partition dev v p.header (if p.sealed then p.footer.data_end else 0)
    give (from_scan p.sealed rescanned scanned)

  unfoldable pub acquire_index : PartitionState → Reads S Acquired
  unfolding load_index scan_partition fall_back
  acquire_index p =
      if p.sealed
      then catch (do entries ← load_index dev v p; give (from_index entries)) (fall_back p false)
      else if not (length p.active_index == 0) || p.data_end == partition_header_region_size
      then give (from_index p.active_index)
      else catch
          (do
            scanned ← scan_partition dev v p.header p.data_end
            give (from_scan false true scanned))
          (fall_back p true)

  -- After a block that could not be read. An overwritten partition is left.
  unfoldable pub after_gap :
      BlockEventKind → (Session S V → Flow × Session S V) → Session S V → Flow × Session S V
  after_gap BlockEventKind.overwritten_gap rest q = (continues, q)
  after_gap kind rest q = rest q

  unfoldable pub query_entries :
      Bool → TimeRange → PartitionState → List IndexEntry → Session S V → Flow × Session S V
  unfolding ranges_intersect proceed with_read deliver report_gap after_gap read_block
  query_entries all_blocks range p [] q = (continues, q)
  query_entries all_blocks range p (e ∷ es) q =
      let rest = query_entries all_blocks range p es in
      if not all_blocks && not (ranges_intersect e.min_time_ns e.max_time_ns range)
      then rest q
      else with_read (read_block dev v codecs p e) q
          (λ code q'.
            proceed
              (report_gap (gap_kind code) code
                (record (partition_metadata p) { block_sequence = e.sequence }) q')
              (after_gap (gap_kind code) rest))
          (λ block q'. proceed (deliver (data_event block.0 block.1) q') rest)

  -- The entries are acquired, and the partition's header has been read again.
  unfoldable pub query_acquired :
      Bool → TimeRange → PartitionState → Acquired → Session S V → Flow × Session S V
  unfolding proceed report_gap query_entries
  query_acquired all_blocks range p a q =
      proceed
        (if invalid_prefix p a
          then report_gap BlockEventKind.corrupt_gap ErrorCode.corrupt (partition_metadata p) q
          else (continues, q))
        (query_entries all_blocks range p a.selected_entries)

  unfoldable pub query_partition :
      Bool → TimeRange → PartitionState → Session S V → Flow × Session S V
  unfolding with_read report_gap acquire_index query_acquired read_partition_header
  query_partition all_blocks range p q =
      if not all_blocks
        && not (range.time_domain_id == 0)
        && not (p.header.options.time_domain_id == range.time_domain_id)
      then (continues, q)
      else with_read (acquire_index p) q (λ code q'. (finishes (error code), q'))
          (λ a q'.
            with_read (read_partition_header dev v codecs p.header.slot) q'
              (λ code q''.
                if is_operational code
                then (finishes (error code), q'')
                else report_gap BlockEventKind.corrupt_gap code (partition_metadata p) q'')
              (λ header q''.
                if not (header.generation == p.header.generation)
                then report_gap BlockEventKind.overwritten_gap ErrorCode.overwritten
                    (partition_metadata p) q''
                else query_acquired all_blocks range p a q''))

  unfoldable pub query_partitions :
      Bool → TimeRange → List PartitionState → Session S V → Flow × Session S V
  unfolding proceed query_partition
  query_partitions all_blocks range [] q = (continues, q)
  query_partitions all_blocks range (p ∷ ps) q =
      proceed (query_partition all_blocks range p q) (query_partitions all_blocks range ps)

  abbrev pub status_of : Flow × Session S V → Status × Session S V
  status_of (continues, q) = (ok, q)
  status_of (finishes status, q) = (status, q)

  -- `query` of a snapshot of the partitions and of the damaged slots.
  unfoldable pub query :
      Bool → TimeRange → List PartitionState → List ℕ → Session S V → Status × Session S V
  unfolding sort_by_generation proceed query_slots query_partitions
  query all_blocks range partitions corrupt_slots q =
      if not all_blocks && not (ltb_ℤ range.begin_ns range.end_ns)
      then (error ErrorCode.invalid_argument, q)
      else if not all_blocks && range.time_domain_id == 0
      then (error ErrorCode.invalid_argument, q)
      else status_of (
          proceed (query_slots corrupt_slots q)
            (query_partitions all_blocks range (sort_by_generation partitions)))

  unfoldable pub query_blocks :
      TimeRange → List PartitionState → List ℕ → Session S V → Status × Session S V
  unfolding query
  query_blocks range = query false range

  abbrev pub default_range : TimeRange
  default_range = record { begin_ns = pos 0; end_ns = pos 0; time_domain_id = 1 }

  unfoldable pub scan_blocks : List PartitionState → List ℕ → Session S V → Status × Session S V
  unfolding query
  scan_blocks = query true default_range

-- ===== src/RingStore/Reader/Delivered.antt =====
-- The events that a query passes to its visitor.
use tfdb.Prelude.{
  same, ◌≢◌, ℕ, ◌≤◌, ◌≡◌, refl, ◌∙◌, inl, inr, Bool, true, false, not, ◌&&◌, List, [], ◌∷◌, arith,
  ◌==◌, Bool-cases, length, ltb_ℤ,
}
use tfdb.Status.{ErrorCode, ok, error}
use tfdb.Format.Volume.{VolumeHeader}
use tfdb.Format.Index.{IndexEntry}
use tfdb.Codec.{CompressionCodec}
use tfdb.RingStore.State.{Device, PartitionState}
use tfdb.RingStore.Reader.Slots.{read_partition_header}
use tfdb.RingStore.Rotate.{sort_by_generation}
use tfdb.RingStore.Reader.Ends.{any-Ends}
use tfdb.RingStore.Reader.Block.{BlockMetadata, is_operational, read_block}
use tfdb.RingStore.Reader.Events.{
  BlockEventKind, BlockEvent, TimeRange, QueryOptions, ranges_intersect, gap_kind, gap, data_event,
  Acquired, invalid_prefix, Session, Flow, with_read, count_gap,
}
use tfdb.RingStore.Reader.Query.{
  deliver, report_gap, query_slots, acquire_index, after_gap, query_entries, query_acquired,
  query_partition, query_partitions, query, status_of,
}
use tfdb.RingStore.Reader.Kept.{Kept, kept, proceed-Kept, with_read-Kept, if-Kept}
use tfdb.RingStore.Reader.Answers.{IsBlockOf, read_block-Ends}

module _ (v : VolumeHeader) (all_blocks : Bool) (range : TimeRange) where
  -- A block of records that was asked for: its times meet the range and its domain is the range's,
  -- unless all blocks were, and its bytes are as many as it states, and no more than a block may have.
  pub record IsAnswer (m : BlockMetadata) (decoded : List ℕ) : Type 0 where
    pub meets : (all_blocks ≡ false) → ranges_intersect m.min_time_ns m.max_time_ns range ≡ true
    pub same_domain : (all_blocks ≡ false) → m.time_domain_id ≡ range.time_domain_id
    pub sized : length decoded ≡ m.raw_size
    pub bounded : m.raw_size ≤ v.max_block_payload

  -- An answer, or a gap with an error and without bytes.
  abbrev pub IsRelevant : BlockEvent → Type 0
  IsRelevant event = elim event.kind [
    | BlockEventKind.data_ ↦ IsAnswer event.metadata event.data_ × (event.detail ≡ ok)
    | _ ↦ (event.data_ ≡ []) × (code : ErrorCode) × (event.detail ≡ error code)
  ]

  gap-IsRelevant :
      (kind : BlockEventKind) (code : ErrorCode) (m : BlockMetadata)
      → (kind ≢ BlockEventKind.data_)
      → IsRelevant (gap kind code m)
  gap-IsRelevant BlockEventKind.data_ code m h = absurd (h refl)
  gap-IsRelevant BlockEventKind.overwritten_gap code m h = (refl, code, refl)
  gap-IsRelevant BlockEventKind.corrupt_gap code m h = (refl, code, refl)

not_data : (code : ErrorCode) → gap_kind code ≢ BlockEventKind.data_
not_data code h = ground arith

module _ {S V : Type 0} (dev : Device S) (v : VolumeHeader) (codecs : List CompressionCodec)
    (visitor : BlockEvent → V → Bool × V) (options : QueryOptions) (all_blocks : Bool)
    (range : TimeRange) (Good : V → Type 0)
    (keeps : (event : BlockEvent) (w : V)
      → IsRelevant v all_blocks range event
      → Good w
      → Good (visitor event w).1) where
  deliver-Kept :
      (event : BlockEvent) (q : Session S V)
      → IsRelevant v all_blocks range event
      → Good q.visited
      → Kept Good (deliver dev v codecs visitor options event q)
  unfolding deliver
  deliver-Kept event q r h = kept (keeps event q.visited r h)

  report_gap-Kept :
      (kind : BlockEventKind) (code : ErrorCode) (m : BlockMetadata) (q : Session S V)
      → (kind ≢ BlockEventKind.data_)
      → Good q.visited
      → Kept Good (report_gap dev v codecs visitor options kind code m q)
  unfolding report_gap
  report_gap-Kept kind code m q n h =
      proceed-Kept _
        (deliver-Kept (gap kind code m) (record q { metrics = count_gap kind q.metrics })
          (gap-IsRelevant v all_blocks range kind code m n) h)
        (λ q' h'. kept h')

  query_slots-Kept :
      (slots : List ℕ) (q : Session S V)
      → Good q.visited
      → Kept Good (query_slots dev v codecs visitor options slots q)
  unfolding query_slots
  query_slots-Kept [] q h = kept h
  query_slots-Kept (slot ∷ slots) q h =
      proceed-Kept _ (report_gap-Kept BlockEventKind.corrupt_gap _ _ q (λ e. absurd cc) h)
        (query_slots-Kept slots)

  after_gap-Kept :
      (kind : BlockEventKind) (rest : Session S V → Flow × Session S V)
      → ((q : Session S V) → Good q.visited → Kept Good (rest q))
      → (q : Session S V) → Good q.visited
      → Kept Good (after_gap dev v codecs visitor options kind rest q)
  unfolding after_gap
  after_gap-Kept BlockEventKind.overwritten_gap rest k q h = kept h
  after_gap-Kept BlockEventKind.corrupt_gap rest k q h = k q h
  after_gap-Kept BlockEventKind.data_ rest k q h = k q h

  abbrev InDomain : PartitionState → Type 0
  InDomain p = (all_blocks ≡ false) → p.header.options.time_domain_id ≡ range.time_domain_id

  answer :
      (p : PartitionState) (e : IndexEntry) (m : BlockMetadata) (decoded : List ℕ)
      → InDomain p
      → ((all_blocks ≡ false) → ranges_intersect e.min_time_ns e.max_time_ns range ≡ true)
      → IsBlockOf v p e m decoded
      → IsRelevant v all_blocks range (data_event m decoded)
  answer p e m decoded domain meets b = (
    record {
      meets = λ some_. rw (b.min_same, b.max_same) (meets some_);
      same_domain = λ some_. b.domain_same ∙ domain some_;
      sized = b.size_same;
      bounded = b.size_bounded;
    },
    refl,
  )

  asked :
      (meets_ : Bool)
      → (not all_blocks && not meets_ ≡ false)
      → (all_blocks ≡ false)
      → meets_ ≡ true
  asked true h a = refl
  asked false h a = absurd (let wrong = rw a at h in cc)

  query_entries-Kept :
      (p : PartitionState)
      → InDomain p
      → (es : List IndexEntry) (q : Session S V) → Good q.visited
      → Kept Good (query_entries dev v codecs visitor options all_blocks range p es q)
  unfolding query_entries with_read
  query_entries-Kept p domain [] q h = kept h
  query_entries-Kept p domain (e ∷ es) q h =
      if-Kept (not all_blocks && not (ranges_intersect e.min_time_ns e.max_time_ns range))
        (λ skipped. query_entries-Kept p domain es q h)
        (λ taken.
          with_read-Kept (read_block dev v codecs p e q.storage) q
            (read_block-Ends v p e dev codecs q.storage) h
            (λ code q' h'.
              proceed-Kept _ (report_gap-Kept (gap_kind code) code _ q' (not_data code) h')
                (after_gap-Kept (gap_kind code) _ (query_entries-Kept p domain es)))
            (λ block q' b h'.
              proceed-Kept _
                (deliver-Kept (data_event block.0 block.1) q'
                  (answer p e block.0 block.1 domain
                    (asked (ranges_intersect e.min_time_ns e.max_time_ns range) taken) b)
                  h')
                (query_entries-Kept p domain es)))

  query_acquired-Kept :
      (p : PartitionState) (a : Acquired) (q : Session S V)
      → InDomain p
      → Good q.visited
      → Kept Good (query_acquired dev v codecs visitor options all_blocks range p a q)
  unfolding query_acquired
  query_acquired-Kept p a q domain h =
      proceed-Kept _
        (if-Kept (invalid_prefix p a)
          (λ invalid. report_gap-Kept BlockEventKind.corrupt_gap _ _ q (λ e. absurd cc) h)
          (λ fine. kept h))
        (query_entries-Kept p domain a.selected_entries)

  same_domain_when :
      (p : PartitionState)
      → ((all_blocks ≡ false) → (range.time_domain_id == 0) ≡ false)
      → (not all_blocks
            && not (range.time_domain_id == 0)
            && not (p.header.options.time_domain_id == range.time_domain_id)
          ≡ false)
      → InDomain p
  same_domain_when p nonzero taken some_ =
      let taken' = rw (some_, nonzero some_) at taken in same taken'

  query_partition-Kept :
      ((all_blocks ≡ false) → (range.time_domain_id == 0) ≡ false)
      → (p : PartitionState) (q : Session S V) → Good q.visited
      → Kept Good (query_partition dev v codecs visitor options all_blocks range p q)
  unfolding query_partition with_read
  query_partition-Kept nonzero p q h =
      if-Kept
        (not all_blocks
          && not (range.time_domain_id == 0)
          && not (p.header.options.time_domain_id == range.time_domain_id))
        (λ skipped. kept h)
        (λ taken.
          with_read-Kept (acquire_index dev v codecs visitor options p q.storage) q
            (any-Ends (acquire_index dev v codecs visitor options p q.storage)) h
            (λ code q' h'. kept h')
            (λ a q' u h'.
              with_read-Kept (read_partition_header dev v codecs p.header.slot q'.storage) q'
                (any-Ends (read_partition_header dev v codecs p.header.slot q'.storage)) h'
                (λ code q'' h''.
                  if-Kept (is_operational code) (λ t. kept h'')
                    (λ t.
                      report_gap-Kept BlockEventKind.corrupt_gap code _ q'' (λ e. absurd cc) h''))
                (λ header q'' u' h''.
                  if-Kept (not (header.generation == p.header.generation))
                    (λ t.
                      report_gap-Kept BlockEventKind.overwritten_gap _ _ q'' (λ e. absurd cc) h'')
                    (λ t. query_acquired-Kept p a q'' (same_domain_when p nonzero taken) h''))))

  query_partitions-Kept :
      ((all_blocks ≡ false) → (range.time_domain_id == 0) ≡ false)
      → (ps : List PartitionState) (q : Session S V) → Good q.visited
      → Kept Good (query_partitions dev v codecs visitor options all_blocks range ps q)
  unfolding query_partitions
  query_partitions-Kept nonzero [] q h = kept h
  query_partitions-Kept nonzero (p ∷ ps) q h =
      proceed-Kept _ (query_partition-Kept nonzero p q h) (query_partitions-Kept nonzero ps)

  status_of-Kept :
      (m : Flow × Session S V)
      → Kept Good m
      → Good (status_of dev v codecs visitor options m).1.visited
  status_of-Kept (Flow.continues, q) (kept h) = h
  status_of-Kept (Flow.finishes status, q) (kept h) = h

  -- Whatever the backend holds and however it changes between the reads, each event that a query
  -- passes to its visitor is either a block of as many bytes as it states, at most as many as a block
  -- may have, whose times meet the range and whose domain is the range's unless all blocks were
  -- asked for, or a gap with an error and without bytes. So what the visitor keeps on such events
  -- holds after the query.
  pub query-relevant :
      (partitions : List PartitionState) (corrupt_slots : List ℕ) (q : Session S V)
      → Good q.visited
      → Good
          (query dev v codecs visitor options all_blocks range partitions corrupt_slots q).1.visited
  unfolding query
  query-relevant partitions corrupt_slots q h =
      elim (Bool-cases (not all_blocks && not (ltb_ℤ range.begin_ns range.end_ns))) [
        | inl empty ↦ rw empty h
        | inr some_time ↦ elim (Bool-cases (not all_blocks && range.time_domain_id == 0)) [
          | inl no_domain ↦ rw (some_time, no_domain) h
          | inr domain ↦
              rw (some_time, domain)
                (status_of-Kept _ (
                  proceed-Kept _ (query_slots-Kept corrupt_slots q h) (
                    query_partitions-Kept (λ some_. let domain' = rw some_ at domain in domain')
                      (sort_by_generation partitions))))
        ]
      ]

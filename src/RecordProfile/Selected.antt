-- ===== src/RecordProfile/Selected.antt =====
-- The records that a query passes to its visitor.
use tfdb.Prelude.{
  ℕ, zero, suc, ◌≡◌, refl, Bool, true, false, not, ◌||◌, List, [], ◌∷◌, ltb, ◌==◌, if◌then◌else◌,
  inl, inr, Bool-cases, length, drop, ltb_ℤ,
}
use tfdb.Status.{ErrorCode, Status, ok, error}
use tfdb.Bytes.{ByteView, bytes, get32, valid, contents}
use tfdb.Format.Volume.{VolumeHeader}
use tfdb.Codec.{CompressionCodec}
use tfdb.RingStore.State.{Device, PartitionState}
use tfdb.RingStore.Reader.Block.{BlockMetadata}
use tfdb.RingStore.Reader.Events.{BlockEventKind, BlockEvent, Session}
use tfdb.RingStore.Reader.Query.{query_blocks}
use tfdb.RingStore.Reader.Delivered.{IsRelevant, query-relevant}
use tfdb.RecordProfile.Frame.{
  RecordView, header_size, bad_frame, bad_crc, record_view, decode_loop, decode_block,
}
use tfdb.RecordProfile.Query.{
  RecordQuery, RecordEvent, RecordRun, BlockRun, framed_record_v1, outside, unselected,
  visit_record, gap_event, visit_block, query_records,
}

kept_if {ℓ} :
    {A : Type ℓ} (t : Bool) (P : A → Type 0) (a b : A) → P a → P b → P (if t then a else b)
kept_if true P a b g h = g
kept_if false P a b g h = h

-- A condition that the visitor keeps is kept by the decoder.
module _ {W : Type 0} (visitor : RecordView → W → Bool × W) (Good : W → Type 0)
    (keeps : (r : RecordView) (w : W) → Good w → Good (visitor r w).1) where
  decode_loop-keeps :
      (rounds : ℕ) (bs : List ℕ) (w : W) → Good w → Good (decode_loop visitor rounds bs w).1
  unfolding decode_loop
  decode_loop-keeps rounds [] w g = g
  decode_loop-keeps zero (b ∷ bs) w g = g
  decode_loop-keeps (suc rounds) (b ∷ bs) w g =
      let data_ : List ℕ = b ∷ bs in
      let g' = keeps (record_view data_) w g in
      kept_if (ltb (length data_) header_size) (λ (r : Status × W). Good r.1) _ _ g
        (kept_if (bad_frame data_) (λ (r : Status × W). Good r.1) _ _ g
          (kept_if (bad_crc data_) (λ (r : Status × W). Good r.1) _ _ g
            (kept_if (not (visitor (record_view data_) w).0) (λ (r : Status × W). Good r.1) _ _ g'
              (decode_loop-keeps rounds (drop (get32 data_ 0) data_)
                (visitor (record_view data_) w).1 g'))))

  pub decode_block-keeps :
      (block : ByteView) (w : W) → Good w → Good (decode_block visitor block w).1
  unfolding decode_block
  decode_block-keeps block w g =
      kept_if (not (valid block)) (λ (r : Status × W). Good r.1) _ _ g
        (decode_loop-keeps (length (contents block)) (contents block) w g)

-- A record that was asked for, in a block of the domain that was asked for; or a gap.
module _ (query_ : RecordQuery) where
  pub record IsSelected (m : BlockMetadata) (r : RecordView) : Type 0 where
    pub inside : outside query_.time r.index_time_ns ≡ false
    pub selected : unselected query_.selectors r.selector ≡ false
    pub in_domain : m.time_domain_id ≡ query_.time.time_domain_id

  abbrev pub IsWanted : RecordEvent → Type 0
  IsWanted event = elim event.kind [
    | BlockEventKind.data_ ↦ IsSelected event.block event.record_ × (event.detail ≡ ok)
    | _ ↦ (code : ErrorCode) × (event.detail ≡ error code)
  ]

module _ {V : Type 0} (visitor : RecordEvent → V → Bool × V) (query_ : RecordQuery)
    (Good : V → Type 0)
    (keeps : (event : RecordEvent) (w : V)
      → IsWanted query_ event
      → Good w
      → Good (visitor event w).1) where
  visit_record-keeps :
      (m : BlockMetadata) (r : RecordView) (b : BlockRun V)
      → m.time_domain_id ≡ query_.time.time_domain_id
      → Good b.seen
      → Good (visit_record visitor query_ m r b).1.seen
  unfolding visit_record
  visit_record-keeps m r b domain g = elim (Bool-cases (outside query_.time r.index_time_ns)) [
    | inl out ↦ rw out g
    | inr inside ↦ elim (Bool-cases (unselected query_.selectors r.selector)) [
      | inl unwanted ↦ rw (inside, unwanted) g
      | inr wanted ↦
          rw (inside, wanted)
            (keeps (record { kind = BlockEventKind.data_; block = m; record_ = r; detail = ok })
              b.seen (record { inside = inside; selected = wanted; in_domain = domain }, refl) g)
    ]
  ]

  visit_block-keeps :
      (v : VolumeHeader) (event : BlockEvent) (run : RecordRun V)
      → IsRelevant v false query_.time event
      → Good run.visited
      → Good (visit_block visitor query_ framed_record_v1 event run).1.visited
  unfolding visit_block framed_record_v1
  visit_block-keeps v event run relevant g =
      by_kind event.kind event.metadata event.data_ event.detail relevant
    where
      by_kind :
          (kind : BlockEventKind) (m : BlockMetadata) (data_ : List ℕ) (detail : Status)
          → IsRelevant v false query_.time
              (record { kind = kind; metadata = m; data_ = data_; detail = detail })
          → Good
              (visit_block visitor query_ framed_record_v1
                (record { kind = kind; metadata = m; data_ = data_; detail = detail })
                run).1.visited
      by_kind BlockEventKind.overwritten_gap m data_ detail (none_, code, e) =
          keeps
            (gap_event (record {
              kind = BlockEventKind.overwritten_gap;
              metadata = m;
              data_ = data_;
              detail = detail;
            }))
            run.visited (code, e) g
      by_kind BlockEventKind.corrupt_gap m data_ detail (none_, code, e) =
          keeps
            (gap_event (record {
              kind = BlockEventKind.corrupt_gap;
              metadata = m;
              data_ = data_;
              detail = detail;
            }))
            run.visited (code, e) g
      by_kind BlockEventKind.data_ m data_ detail (answer, fine) =
          elim (Bool-cases (
            not (m.record_format_id == framed_record_v1.id)
            || not (m.record_format_version == framed_record_v1.version))) [
              | inl other ↦ rw other g
              | inr framed ↦ rw framed (
                  decode_block-keeps (visit_record visitor query_ m) (λ b. Good b.seen)
                    (λ r b g'. visit_record-keeps m r b (answer.same_domain refl) g') (bytes data_)
                    (record { decoded_records = 0; keep = run.keep_going; seen = run.visited }) g)
            ]

  module _ {S : Type 0} (dev : Device S) (v : VolumeHeader) (codecs : List CompressionCodec) where
    -- Each event that `query_records` with the profile FramedRecordV1 passes to its visitor is a record
    -- whose time lies in the range, whose selector is one of those asked for if any were, and whose
    -- block is of the range's time domain, or a gap with an error. So what the visitor keeps on such
    -- events holds after the query, whatever the backend holds and however it changes.
    pub query_records-wanted :
        (partitions : List PartitionState) (corrupt_slots : List ℕ) (q : Session S (RecordRun V))
        → Good q.visited.visited
        → Good
            (query_records visitor query_ framed_record_v1 dev v codecs partitions corrupt_slots
              q).1.visited.visited
    unfolding query_records query_blocks
    query_records-wanted partitions corrupt_slots q g =
        kept_if (not (ltb_ℤ query_.time.begin_ns query_.time.end_ns))
          (λ (r : Status × Session S (RecordRun V)). Good r.1.visited.visited) _ _ g
          (query-relevant dev v codecs (visit_block visitor query_ framed_record_v1)
            query_.block_options false query_.time (λ run. Good run.visited)
            (λ event run relevant g'. visit_block-keeps v event run relevant g') partitions
            corrupt_slots
            (record q { visited = record q.visited { keep_going = true; decode_status = ok } }) g)

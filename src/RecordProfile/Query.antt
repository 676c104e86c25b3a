-- ===== src/RecordProfile/Query.antt =====
-- `query_records`: the records of the blocks that a query delivers, decoded by a profile.
use tfdb.Prelude.{
  ℕ, ◌+◌, ◌%◌, ◌^◌, Bool, true, false, not, ◌&&◌, ◌||◌, List, [], ◌∷◌, ◌==◌, if◌then◌else◌, length,
  ℤ, pos, ltb_ℤ,
}
use tfdb.Status.{ErrorCode, Status, ok, error, is_ok}
use tfdb.Bytes.{ByteView, bytes}
use tfdb.Format.Volume.{VolumeHeader}
use tfdb.Codec.{CompressionCodec}
use tfdb.RingStore.State.{Device, PartitionState}
use tfdb.RingStore.Reader.Block.{BlockMetadata}
use tfdb.RingStore.Reader.Events.{BlockEventKind, BlockEvent, TimeRange, QueryOptions, Session}
use tfdb.RingStore.Reader.Query.{query_blocks}
use tfdb.RecordProfile.Frame.{
  RecordView, framed_record_v1_profile_id, framed_record_v1_version, decode_block,
}

-- `decode_block` is given a visitor, which keeps a state.
pub record RecordProfile : Type 1 where
  pub id : ℕ
  pub version : ℕ
  pub decode_block : {W : Type 0} → (RecordView → W → Bool × W) → ByteView → W → Status × W

unfoldable pub framed_record_v1 : RecordProfile
unfolding decode_block
framed_record_v1 = record {
  id = framed_record_v1_profile_id;
  version = framed_record_v1_version;
  decode_block = decode_block;
}

pub record RecordQuery : Type 0 where
  pub time : TimeRange
  pub selectors : List ℕ
  pub block_options : QueryOptions

pub record RecordEvent : Type 0 where
  pub kind : BlockEventKind
  pub block : BlockMetadata
  pub record_ : RecordView
  pub detail : Status

-- A `RecordView` that nothing was assigned to.
abbrev pub no_record : RecordView
no_record = record { encoded = []; payload = []; index_time_ns = pos 0; selector = 0; flags = 0 }

-- `keep_going`, `decode_status`, and the state of the visitor of records.
pub record RecordRun (V : Type 0) : Type 0 where
  pub keep_going : Bool
  pub decode_status : Status
  pub visited : V

-- The state of the visitor that decodes a block: the count, and what it shares with the query.
pub record BlockRun (V : Type 0) : Type 0 where
  pub decoded_records : ℕ
  pub keep : Bool
  pub seen : V

unfoldable pub count_of : ℕ → List ℕ → Bool
count_of selector [] = false
count_of selector (n ∷ ns) = n == selector || count_of selector ns

abbrev pub outside : TimeRange → ℤ → Bool
outside range time = ltb_ℤ time range.begin_ns || not (ltb_ℤ time range.end_ns)

abbrev pub unselected : List ℕ → ℕ → Bool
unselected selectors selector = not (length selectors == 0) && not (count_of selector selectors)

abbrev pub gap_event : BlockEvent → RecordEvent
gap_event event = record {
  kind = event.kind;
  block = event.metadata;
  record_ = no_record;
  detail = event.detail;
}

module _ {V : Type 0} (visitor : RecordEvent → V → Bool × V) (query_ : RecordQuery) where
  -- The visitor of the records of a block.
  unfoldable pub visit_record : BlockMetadata → RecordView → BlockRun V → Bool × BlockRun V
  unfolding count_of
  visit_record m r b =
      let counted : BlockRun V = record b { decoded_records = (b.decoded_records + 1) % 2 ^ 32 } in
      if outside query_.time r.index_time_ns
      then (true, counted)
      else if unselected query_.selectors r.selector
      then (true, counted)
      else let event : RecordEvent = record {
        kind = BlockEventKind.data_;
        block = m;
        record_ = r;
        detail = ok;
      } in
        let (keep', seen') = visitor event b.seen in
        (keep', record counted { keep = keep'; seen = seen' })

  abbrev pub miscounted : BlockMetadata → Status → BlockRun V → Bool
  miscounted m status b = is_ok status && b.keep && not (b.decoded_records == m.record_count)

  -- After the records of a block.
  abbrev pub after_block : BlockMetadata → RecordRun V → Status × BlockRun V → Bool × RecordRun V
  after_block m run (status, b) =
      let status' = if miscounted m status b then error ErrorCode.corrupt else status in
      (
        b.keep && is_ok status',
        record { keep_going = b.keep; decode_status = status'; visited = b.seen },
      )

  abbrev pub pass_gap : BlockEvent → RecordRun V → Bool × RecordRun V
  pass_gap event run =
      let (keep', visited') = visitor (gap_event event) run.visited in
      (keep', record run { keep_going = keep'; visited = visited' })

  module _ (profile : RecordProfile) where
    abbrev pub visit_data : BlockMetadata → List ℕ → RecordRun V → Bool × RecordRun V
    visit_data m data_ run =
        if not (m.record_format_id == profile.id)
          || not (m.record_format_version == profile.version)
        then (false, record run { decode_status = error ErrorCode.unsupported })
        else after_block m run (
            profile.decode_block (visit_record m) (bytes data_)
              (record { decoded_records = 0; keep = run.keep_going; seen = run.visited }))

    -- The visitor of the blocks.
    unfoldable pub visit_block : BlockEvent → RecordRun V → Bool × RecordRun V
    unfolding visit_record
    visit_block event run = elim event.kind [
      | BlockEventKind.data_ ↦ visit_data event.metadata event.data_ run
      | _ ↦ pass_gap event run
    ]

    module _ {S : Type 0} (dev : Device S) (v : VolumeHeader) (codecs : List CompressionCodec) where
      unfoldable pub query_records :
          List PartitionState → List ℕ → Session S (RecordRun V) → Status × Session S (RecordRun V)
      unfolding visit_block query_blocks
      query_records partitions corrupt_slots q =
          if not (ltb_ℤ query_.time.begin_ns query_.time.end_ns)
          then (error ErrorCode.invalid_argument, q)
          else let q0 : Session S (RecordRun V) = record q {
            visited = record q.visited { keep_going = true; decode_status = ok };
          } in
            let (status, q') =
              query_blocks dev v codecs visit_block query_.block_options query_.time partitions
                corrupt_slots q0 in
            (if is_ok status then q'.visited.decode_status else status, q')

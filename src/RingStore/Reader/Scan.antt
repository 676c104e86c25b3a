-- ===== src/RingStore/Reader/Scan.antt =====
-- `scan_partition`: the blocks of a partition, from the start of its data to the first place where no
-- block of it stands.
use tfdb.Prelude.{
  ℕ, zero, suc, ◌+◌, ◌/◌, ◌%◌, ◌^◌, Bool, true, false, not, ◌&&◌, ◌||◌, Option, none, some, List,
  [], ◌∷◌, ltb, ◌==◌, if◌then◌else◌, ltb_ℤ,
}
use tfdb.Status.{ErrorCode, Result, returns, fails}
use tfdb.Crc.{crc32c}
use tfdb.Format.{partition_header_region_size, block_header_encoded_size, align_up}
use tfdb.Format.Volume.{VolumeHeader}
use tfdb.Format.Block.{BlockHeader, decode_block_header}
use tfdb.Format.Index.{IndexEntry}
use tfdb.Format.Partition.{PartitionHeader, PartitionOptions}
use tfdb.Codec.{none_id}
use tfdb.RingStore.State.{Device, partition_base, index_begin, add64, sub64}
use tfdb.RingStore.Reader.Reads.{Reads, ◌>>=◌, ◌>>◌, give, reject}

-- What `scan_partition` assigns to its outputs.
pub record Scanned : Type 0 where
  pub entries : List IndexEntry
  pub data_end : ℕ
  pub stopped_on_corruption : Bool

-- The writer of the block before, in the chain of the blocks.
pub record Expected : Type 0 where
  pub cursor : ℕ
  pub sequence : ℕ
  pub writer_high : ℕ
  pub writer_low : ℕ

-- The span that a frame of this size takes on the media, or none if it overflows.
abbrev pub span_is : VolumeHeader → ℕ → ℕ → Bool
span_is v frame span =
    let (expected, overflow) = align_up frame v.persistence_quantum in
    not overflow && span == expected

-- The codec that a block may name: none, or that of its partition.
abbrev pub other_codec : PartitionOptions → BlockHeader → Bool
other_codec o b =
    (not (b.compression == none_id)
      && (not (b.compression == o.compression)
          || not (b.compression_version == o.compression_version)))
    || (b.compression == none_id
        && (not (b.stored_size == b.raw_size) || not (b.compression_version == 1)))

-- The test of a decoded block header against the partition and the block before.
abbrev pub breaks_chain : VolumeHeader → PartitionHeader → ℕ → Expected → BlockHeader → Bool
breaks_chain v h limit x b =
    not (b.generation == h.generation)
    || not (b.slot == h.slot)
    || not (b.volume_id_low == v.volume_id_low)
    || not (b.volume_id_high == v.volume_id_high)
    || not (b.previous_writer_id_high == x.writer_high)
    || not (b.previous_writer_id_low == x.writer_low)
    || not (b.sequence == x.sequence)
    || b.record_count == 0
    || ltb_ℤ b.max_time_ns b.min_time_ns
    || ltb v.max_block_payload b.stored_size
    || ltb v.max_block_payload b.raw_size
    || other_codec h.options b
    || not (b.frame_span % v.persistence_quantum == 0)
    || not (x.cursor % v.persistence_quantum == 0)
    || ltb (sub64 limit x.cursor) b.frame_span

abbrev pub entry_at : ℕ → BlockHeader → IndexEntry
entry_at cursor b = record {
  offset = cursor;
  frame_size = (block_header_encoded_size + b.stored_size) % 2 ^ 32;
  frame_span = b.frame_span;
  sequence = b.sequence;
  record_count = b.record_count;
  min_time_ns = b.min_time_ns;
  max_time_ns = b.max_time_ns;
  flags = b.flags;
  raw_size = b.raw_size;
  writer_id_high = b.writer_id_high;
  writer_id_low = b.writer_id_low;
}

-- What the next block has to follow.
abbrev pub after_entry : Expected → IndexEntry → Expected
after_entry x e = record {
  cursor = add64 x.cursor e.frame_span;
  sequence = (x.sequence + 1) % 2 ^ 32;
  writer_high = e.writer_id_high;
  writer_low = e.writer_id_low;
}

abbrev pub ends_at : Bool → ℕ → Scanned
ends_at corrupt cursor = record { entries = []; data_end = cursor; stopped_on_corruption = corrupt }

abbrev pub put_first : IndexEntry → Scanned → Scanned
put_first e rest = record rest { entries = e ∷ rest.entries }

abbrev pub at_start : Expected
at_start = record {
  cursor = partition_header_region_size;
  sequence = 0;
  writer_high = 0;
  writer_low = 0;
}

-- The block header at the cursor, if it continues the chain.
unfoldable pub accept_block :
    VolumeHeader → PartitionHeader → ℕ → Expected → Result BlockHeader → Option BlockHeader
accept_block v h limit x (fails c) = none
accept_block v h limit x (returns b) =
    if breaks_chain v h limit x b
      || not (span_is v (block_header_encoded_size + b.stored_size) b.frame_span)
    then none
    else some b

module _ {S : Type 0} (dev : Device S) (v : VolumeHeader) where
  -- One round of the loop; `none` stands for the `break` on corruption.
  unfoldable pub scan_payload :
      PartitionHeader → ℕ → Option BlockHeader → Reads S (Option IndexEntry)
  scan_payload h cursor none = give none
  scan_payload h cursor (some b) = do
    payload ←
        dev.read (add64 (add64 (partition_base v h.slot) cursor) block_header_encoded_size)
          b.stored_size
    give (if crc32c payload == b.payload_crc then some (entry_at cursor b) else none)

  unfoldable pub scan_block : PartitionHeader → ℕ → Expected → Reads S (Option IndexEntry)
  unfolding accept_block scan_payload
  scan_block h limit x = do
    header_bytes ← dev.read (add64 (partition_base v h.slot) x.cursor) block_header_encoded_size
    scan_payload h x.cursor (accept_block v h limit x (decode_block_header header_bytes))

  -- The loop after a round that found an entry, or stopped.
  unfoldable pub scan_on :
      Expected → Option IndexEntry → (IndexEntry → Reads S Scanned) → Reads S Scanned
  scan_on x none next = give (ends_at true x.cursor)
  scan_on x (some e) next = do rest ← next e; give (put_first e rest)

  -- The loop, with the rounds left. Each takes 128 bytes at least, so `limit / 128` are enough.
  unfoldable pub scan_loop : ℕ → PartitionHeader → ℕ → Expected → Reads S Scanned
  unfolding scan_block scan_on
  scan_loop zero h limit x = give (ends_at false x.cursor)
  scan_loop (suc rounds) h limit x =
      if ltb limit (add64 x.cursor block_header_encoded_size)
      then give (ends_at false x.cursor)
      else do
        found ← scan_block h limit x
        scan_on x found (λ e. scan_loop rounds h limit (after_entry x e))

  abbrev pub scan_end : ℕ → ℕ
  scan_end scan_limit = if scan_limit == 0 then index_begin v else scan_limit

  unfoldable pub scan_partition : PartitionHeader → ℕ → Reads S Scanned
  unfolding scan_loop
  scan_partition h scan_limit = do
    let limit = scan_end scan_limit
    reject (ltb limit partition_header_region_size || ltb (index_begin v) limit) ErrorCode.corrupt
    scan_loop (limit / block_header_encoded_size) h limit at_start

-- ===== src/RingStore/Emit.antt =====
-- `emit_builder`: the records that the builder holds become one block of the active partition.
use tfdb.Prelude.{
  ℕ, ◌+◌, ◌-◌, ◌/◌, ◌%◌, ◌^◌, bit_or, Bool, true, not, ◌&&◌, ◌||◌, none, some, List, [], ◌∷◌, ◌++◌,
  ltb, ◌==◌, if◌then◌else◌, length, min_ℤ, max_ℤ,
}
use tfdb.Status.{ErrorCode, Status, ok, Result, returns, fails, ◌>>=◌, ◌>>◌, reject_if}
use tfdb.Bytes.{bytes}
use tfdb.Crc.{crc32c}
use tfdb.Format.{block_header_encoded_size, index_entry_encoded_size, align_up}
use tfdb.Format.Volume.{VolumeHeader}
use tfdb.Format.Block.{BlockHeader, encode_block_header}
use tfdb.Format.Index.{IndexEntry}
use tfdb.Format.Partition.{PartitionOptions}
use tfdb.Codec.{CompressionCodec, none_id}
use tfdb.RingStore.State.{
  Device, Impl, PartitionState, partition_base, index_begin, active, set_active, fail, codec_for,
  ◌>=>◌, add64, sub64,
}
use tfdb.RingStore.Rotate.{write_or_fail}

-- The payload of a block, and the codec that its header names.
pub record Payload : Type 0 where
  pub stored : List ℕ
  pub selected : ℕ
  pub selected_version : ℕ

-- `compressed`, which stays empty if the partition does not compress.
unfoldable pub compress_builder : PartitionOptions → CompressionCodec → List ℕ → Result (List ℕ)
compress_builder options codec builder = if options.compression == none_id then returns [] else do
  compressed ← codec.compress (bytes builder)
  reject_if (ltb (codec.max_compressed_size (length builder)) (length compressed))
      ErrorCode.internal_error
  reject_if (length compressed == 0) ErrorCode.internal_error
  returns compressed

-- A block that compression does not make smaller is stored as it is.
unfoldable pub choose_payload : PartitionOptions → CompressionCodec → List ℕ → List ℕ → Payload
choose_payload options codec builder compressed =
    if not (options.compression == none_id) && ltb (length compressed) (length builder)
    then record {
      stored = compressed;
      selected = options.compression;
      selected_version = codec.version;
    }
    else record { stored = builder; selected = none_id; selected_version = 1 }

-- The writer of the last index entry, or zeros.
unfoldable pub last_writer : List IndexEntry → ℕ × ℕ
last_writer [] = (0, 0)
last_writer (e ∷ []) = (e.writer_id_high, e.writer_id_low)
last_writer (e ∷ f ∷ es) = last_writer (f ∷ es)

abbrev pub frame_size : Payload → ℕ
frame_size payload = add64 block_header_encoded_size (length payload.stored)

module _ {S : Type 0} (dev : Device S) where
  abbrev pub block_of : Impl S → PartitionState → Payload → ℕ → BlockHeader
  block_of s p payload span = record {
    generation = p.header.generation;
    slot = p.header.slot;
    sequence = length p.active_index % 2 ^ 32;
    flags = s.builder_flags;
    record_count = s.builder_records;
    stored_size = length payload.stored % 2 ^ 32;
    raw_size = length s.builder % 2 ^ 32;
    frame_span = span % 2 ^ 32;
    min_time_ns = s.builder_min_time;
    max_time_ns = s.builder_max_time;
    compression = payload.selected;
    compression_version = payload.selected_version;
    payload_crc = crc32c payload.stored;
    volume_id_low = s.volume.volume_id_low;
    volume_id_high = s.volume.volume_id_high;
    writer_id_high = s.writer_id_high;
    writer_id_low = s.writer_id_low;
    previous_writer_id_high = (last_writer p.active_index).0;
    previous_writer_id_low = (last_writer p.active_index).1;
  }

  abbrev pub entry_of : PartitionState → BlockHeader → Payload → ℕ → IndexEntry
  entry_of p block payload span = record {
    offset = p.data_end;
    frame_size = frame_size payload % 2 ^ 32;
    frame_span = span % 2 ^ 32;
    sequence = block.sequence;
    record_count = block.record_count;
    min_time_ns = block.min_time_ns;
    max_time_ns = block.max_time_ns;
    flags = block.flags;
    raw_size = block.raw_size;
    writer_id_high = block.writer_id_high;
    writer_id_low = block.writer_id_low;
  }

  -- The partition after the block.
  unfoldable pub add_block : PartitionState → BlockHeader → IndexEntry → ℕ → PartitionState
  add_block p block entry span = record p {
    active_index = p.active_index ++ entry ∷ [];
    block_count = length (p.active_index ++ entry ∷ []) % 2 ^ 32;
    data_end = add64 p.data_end span;
    aggregate_flags = bit_or p.aggregate_flags block.flags;
    has_time = true;
    min_time_ns = if p.has_time then min_ℤ p.min_time_ns block.min_time_ns else block.min_time_ns;
    max_time_ns = if p.has_time then max_ℤ p.max_time_ns block.max_time_ns else block.max_time_ns;
  }

  -- What `emit_builder` assigns after its write.
  unfoldable pub published : PartitionState → ℕ → ℕ → Impl S → Impl S
  published q stored raw s = record (set_active s q) {
    metrics = record s.metrics {
      published_blocks = add64 s.metrics.published_blocks 1;
      stored_block_bytes = add64 s.metrics.stored_block_bytes stored;
      raw_block_bytes = add64 s.metrics.raw_block_bytes raw;
    };
    dirty = true;
    builder = [];
    builder_records = 0;
    builder_flags = 0;
  }

  abbrev pub no_room : VolumeHeader → PartitionState → ℕ → Bool
  no_room v p span =
      ltb (index_begin v) p.data_end
      || ltb (sub64 (index_begin v) p.data_end) span
      || ltb (v.index_region_size / index_entry_encoded_size) (length p.active_index + 1)

  unfoldable pub write_frame : PartitionState → Payload → ℕ → Impl S → Status × Impl S
  unfolding write_or_fail add_block published
  write_frame p payload span s =
      let block = block_of s p payload span in
      let frame = encode_block_header block ++ payload.stored in
      let entry = entry_of p block payload span in
      write_or_fail dev (add64 (partition_base s.volume p.header.slot) p.data_end) frame s >=> λ s'.
      (ok, published (add_block p block entry span) (length frame) (length s.builder) s')

  -- The frame's span on the media, and whether it overflowed.
  abbrev pub frame_span : VolumeHeader → Payload → ℕ × Bool
  frame_span v payload = align_up (frame_size payload) v.persistence_quantum

  abbrev pub too_large : VolumeHeader → Payload → Bool
  too_large v payload =
      (frame_span v payload).1
      || ltb (2 ^ 32 - 1) (frame_size payload)
      || ltb (2 ^ 32 - 1) (frame_span v payload).0

  unfoldable pub emit_payload : PartitionState → Payload → Impl S → Status × Impl S
  unfolding fail write_frame
  emit_payload p payload s =
      let span = (frame_span s.volume payload).0 in
      if too_large s.volume payload
      then fail ErrorCode.out_of_range s
      else if no_room s.volume p span
      then fail ErrorCode.internal_error s
      else write_frame p payload span s

  unfoldable pub emit_with : PartitionState → CompressionCodec → Impl S → Status × Impl S
  unfolding fail compress_builder choose_payload emit_payload
  emit_with p codec s = elim (compress_builder p.header.options codec s.builder) [
    | fails code ↦ fail code s
    | returns compressed ↦
        emit_payload p (choose_payload p.header.options codec s.builder compressed) s
  ]

  unfoldable pub emit_from : PartitionState → Impl S → Status × Impl S
  unfolding fail emit_with
  emit_from p s =
      let options = p.header.options in
      elim (codec_for s.compression_codecs options.compression options.compression_version) [
        | none ↦ fail ErrorCode.unsupported s
        | some codec ↦ emit_with p codec s
      ]

  unfoldable pub emit_builder : Impl S → Status × Impl S
  unfolding fail emit_from
  emit_builder s =
      if length s.builder == 0
      then (ok, s)
      else elim (active s) [ none ↦ fail ErrorCode.internal_error s | some p ↦ emit_from p s ]

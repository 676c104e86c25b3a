-- ===== src/RingStore/Reader/Block.antt =====
-- `classify_snapshot_failure` and `read_block`.
use tfdb.Prelude.{
  same_time, ℕ, ◌+◌, ◌%◌, ◌^◌, Bool, true, false, not, ◌&&◌, ◌||◌, Option, none, some, List, ltb,
  ◌==◌, if◌then◌else◌, length, ℤ, ltb_ℤ,
}
use tfdb.Status.{ErrorCode, Result, returns, fails}
use tfdb.Bytes.{bytes}
use tfdb.Crc.{crc32c}
use tfdb.Format.{block_header_encoded_size}
use tfdb.Format.Volume.{VolumeHeader}
use tfdb.Format.Block.{BlockHeader, decode_block_header}
use tfdb.Format.Index.{IndexEntry}
use tfdb.Format.Partition.{PartitionHeader}
use tfdb.Codec.{CompressionCodec}
use tfdb.RingStore.State.{Device, PartitionState, partition_base, codec_for, add64}
use tfdb.RingStore.Reader.Reads.{Reads, ◌>>=◌, ◌>>◌, give, stop, lift, reject, catch}
use tfdb.RingStore.Reader.Slots.{read_partition_header}
use tfdb.RingStore.Reader.Scan.{span_is, other_codec}

pub record BlockMetadata : Type 0 where
  pub partition_slot : ℕ
  pub partition_generation : ℕ
  pub block_sequence : ℕ
  pub record_count : ℕ
  pub min_time_ns : ℤ
  pub max_time_ns : ℤ
  pub flags : ℕ
  pub compression : ℕ
  pub stored_size : ℕ
  pub raw_size : ℕ
  pub physical_offset : ℕ
  pub record_format_id : ℕ
  pub record_format_version : ℕ
  pub time_domain_id : ℕ

-- Errors of the backend, which say nothing of the media.
abbrev pub is_operational : ErrorCode → Bool
is_operational ErrorCode.io_error = true
is_operational ErrorCode.interrupted = true
is_operational ErrorCode.unsupported = true
is_operational code = false

abbrev pub classify : ℕ → ErrorCode → Result PartitionHeader → ErrorCode
classify generation fallback (returns h) =
    if not (h.generation == generation) then ErrorCode.overwritten else fallback
classify generation fallback (fails code) = if is_operational code then code else fallback

-- A writer of zeros in the entry is one that was not serialised.
abbrev pub other_block : VolumeHeader → PartitionState → IndexEntry → BlockHeader → Bool
other_block v p e b =
    not (b.generation == p.header.generation)
    || not (b.slot == p.header.slot)
    || not (b.sequence == e.sequence)
    || not (b.volume_id_low == v.volume_id_low)
    || not (b.volume_id_high == v.volume_id_high)
    || ((not (e.writer_id_high == 0) || not (e.writer_id_low == 0))
        && (not (b.writer_id_high == e.writer_id_high) || not (b.writer_id_low == e.writer_id_low)))

abbrev pub disagrees : VolumeHeader → PartitionState → IndexEntry → BlockHeader → Bool
disagrees v p e b =
    not ((b.stored_size + block_header_encoded_size) % 2 ^ 32 == e.frame_size)
    || not (b.frame_span == e.frame_span)
    || ltb v.max_block_payload b.raw_size
    || ltb v.max_block_payload b.stored_size
    || b.record_count == 0
    || ltb_ℤ b.max_time_ns b.min_time_ns
    || not (b.record_count == e.record_count)
    || not (b.raw_size == e.raw_size)
    || not (same_time b.min_time_ns e.min_time_ns)
    || not (same_time b.max_time_ns e.max_time_ns)
    || not (b.flags == e.flags)
    || other_codec p.header.options b

abbrev pub metadata_of : VolumeHeader → PartitionState → IndexEntry → BlockHeader → BlockMetadata
metadata_of v p e b = record {
  partition_slot = p.header.slot;
  partition_generation = p.header.generation;
  block_sequence = b.sequence;
  record_count = b.record_count;
  min_time_ns = b.min_time_ns;
  max_time_ns = b.max_time_ns;
  flags = b.flags;
  compression = b.compression;
  stored_size = b.stored_size;
  raw_size = b.raw_size;
  physical_offset = add64 (partition_base v p.header.slot) e.offset;
  record_format_id = p.header.options.record_format_id;
  record_format_version = p.header.options.record_format_version;
  time_domain_id = p.header.options.time_domain_id;
}

module _ {S : Type 0} (dev : Device S) (v : VolumeHeader) (codecs : List CompressionCodec) where
  unfoldable pub classify_snapshot_failure : PartitionState → ErrorCode → S → ErrorCode × S
  unfolding read_partition_header
  classify_snapshot_failure p fallback s =
      let (header, s') = read_partition_header dev v codecs p.header.slot s in
      (classify p.header.generation fallback header, s')

  -- `return classify_snapshot_failure(partition, fallback);`
  unfoldable pub classified {ℓ} : {A : Type ℓ} → PartitionState → ErrorCode → Reads S A
  unfolding classify_snapshot_failure
  classified p fallback s =
      let (code, s') = classify_snapshot_failure p fallback s in (fails code, s')

  abbrev pub agree : PartitionState → Bool → Reads S (Unit {0})
  agree p test = if test then classified p ErrorCode.corrupt else give tt

  -- The header of the partition is still that of the snapshot.
  unfoldable pub same_generation : PartitionState → Reads S (Unit {0})
  unfolding read_partition_header classified
  same_generation p = do
    header ← catch (read_partition_header dev v codecs p.header.slot) (classified p)
    reject (not (header.generation == p.header.generation)) ErrorCode.overwritten

  unfoldable pub decode_stored : BlockHeader → List ℕ → Option CompressionCodec → Reads S (List ℕ)
  decode_stored b stored none = stop ErrorCode.unsupported
  decode_stored b stored (some codec) = do
    decoded ← lift (codec.decompress (bytes stored) b.raw_size)
    reject (not (length decoded == b.raw_size)) ErrorCode.corrupt
    give decoded

  -- The block header, tested against the partition and the entry.
  unfoldable pub read_block_header : PartitionState → IndexEntry → Reads S BlockHeader
  unfolding classified
  read_block_header p e = do
    header_bytes ←
        dev.read (add64 (partition_base v p.header.slot) e.offset) block_header_encoded_size
    b ← catch (lift (decode_block_header header_bytes)) (classified p)
    agree p (other_block v p e b)
    agree p (disagrees v p e b)
    agree p (not (span_is v (block_header_encoded_size + b.stored_size) b.frame_span))
    give b

  unfoldable pub read_block : PartitionState → IndexEntry → Reads S (BlockMetadata × List ℕ)
  unfolding same_generation read_block_header classified decode_stored
  read_block p e = do
    same_generation p
    b ← read_block_header p e
    stored ←
        dev.read (add64 (add64 (partition_base v p.header.slot) e.offset) block_header_encoded_size)
          b.stored_size
    same_generation p
    agree p (not (crc32c stored == b.payload_crc))
    decoded ← decode_stored b stored (codec_for codecs b.compression b.compression_version)
    give (metadata_of v p e b, decoded)

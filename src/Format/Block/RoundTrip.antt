-- ===== src/Format/Block/RoundTrip.antt =====
-- `encode_block_header` followed by `decode_block_header`.
use tfdb.Prelude.{if◌then◌else◌, ◌^◌, ◌<◌, ◌≡◌, refl, arith}
use tfdb.Status.{returns}
use tfdb.Bytes.{get16, get32, le_bytes, gather}
use tfdb.Bytes.Endian.{gather-le_bytes, to_i64-gather, IsI64}
use tfdb.Format.{ErrorCode, fails, magic_is, block_magic, common_check}
use tfdb.Format.Block.{
  BlockHeader, encode_block_header, block_header_fields, load_block_header, decode_block_header,
  bad_bounds,
}
use tfdb.Format.Seal.{common_check-sealed}

-- The fields fit their C++ types.
pub record IsEncodable (h : BlockHeader) : Type 0 where
  pub generation_fits : h.generation < 2 ^ 64
  pub slot_fits : h.slot < 2 ^ 32
  pub sequence_fits : h.sequence < 2 ^ 32
  pub flags_fit : h.flags < 2 ^ 32
  pub count_fits : h.record_count < 2 ^ 32
  pub stored_fits : h.stored_size < 2 ^ 32
  pub raw_fits : h.raw_size < 2 ^ 32
  pub span_fits : h.frame_span < 2 ^ 32
  pub min_fits : IsI64 h.min_time_ns
  pub max_fits : IsI64 h.max_time_ns
  pub compression_fits : h.compression < 2 ^ 16
  pub version_fits : h.compression_version < 2 ^ 16
  pub crc_fits : h.payload_crc < 2 ^ 32
  pub id_low_fits : h.volume_id_low < 2 ^ 64
  pub id_high_fits : h.volume_id_high < 2 ^ 64
  pub writer_high_fits : h.writer_id_high < 2 ^ 64
  pub writer_low_fits : h.writer_id_low < 2 ^ 64
  pub previous_high_fits : h.previous_writer_id_high < 2 ^ 64
  pub previous_low_fits : h.previous_writer_id_low < 2 ^ 64

load-encode : (h : BlockHeader) → IsEncodable h → load_block_header (encode_block_header h) ≡ h
unfolding load_block_header encode_block_header le_bytes
load-encode h e = λ i. record {
  generation = gather-le_bytes 8 h.generation e.generation_fits i;
  slot = gather-le_bytes 4 h.slot e.slot_fits i;
  sequence = gather-le_bytes 4 h.sequence e.sequence_fits i;
  flags = gather-le_bytes 4 h.flags e.flags_fit i;
  record_count = gather-le_bytes 4 h.record_count e.count_fits i;
  stored_size = gather-le_bytes 4 h.stored_size e.stored_fits i;
  raw_size = gather-le_bytes 4 h.raw_size e.raw_fits i;
  frame_span = gather-le_bytes 4 h.frame_span e.span_fits i;
  min_time_ns = to_i64-gather h.min_time_ns e.min_fits i;
  max_time_ns = to_i64-gather h.max_time_ns e.max_fits i;
  compression = gather-le_bytes 2 h.compression e.compression_fits i;
  compression_version = gather-le_bytes 2 h.compression_version e.version_fits i;
  payload_crc = gather-le_bytes 4 h.payload_crc e.crc_fits i;
  volume_id_low = gather-le_bytes 8 h.volume_id_low e.id_low_fits i;
  volume_id_high = gather-le_bytes 8 h.volume_id_high e.id_high_fits i;
  writer_id_high = gather-le_bytes 8 h.writer_id_high e.writer_high_fits i;
  writer_id_low = gather-le_bytes 8 h.writer_id_low e.writer_low_fits i;
  previous_writer_id_high = gather-le_bytes 8 h.previous_writer_id_high e.previous_high_fits i;
  previous_writer_id_low = gather-le_bytes 8 h.previous_writer_id_low e.previous_low_fits i;
}

checks-encode :
    (h : BlockHeader) → common_check (encode_block_header h) block_magic 128 72 ≡ returns tt
unfolding encode_block_header
checks-encode h =
    common_check-sealed (block_header_fields h) block_magic 128 72
      (unfold block_header_fields in refl) (omega arith)
      (unfold encode_block_header magic_is le_bytes in refl)
      (unfold encode_block_header get16 gather le_bytes in refl)
      (unfold encode_block_header get16 gather le_bytes in refl)
      (unfold encode_block_header get32 gather le_bytes in refl)

-- A block header whose fields fit their widths on the media, once encoded, is decoded to itself, and
-- refused as corrupt exactly when the decoder's bounds test fails on it.
pub decode_block_header-encode :
    (h : BlockHeader)
    → IsEncodable h
    → decode_block_header (encode_block_header h)
      ≡ (if bad_bounds h then fails ErrorCode.corrupt else returns h)
unfolding decode_block_header
decode_block_header-encode h e = rw (checks-encode h, load-encode h e) (ground arith)

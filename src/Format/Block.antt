-- ===== src/Format/Block.antt =====
-- `BlockHeader`, `encode_block_header` and `decode_block_header`.
pub mod RoundTrip
use tfdb.Prelude.{ℕ, ◌+◌, ◌%◌, ◌^◌, ◌&&◌, ◌||◌, ◌==◌, ltb, List, replicate, ℤ, ltb_ℤ}
use tfdb.Status.{ErrorCode, Result, returns, ◌>>=◌, ◌>>◌, reject_if}
use tfdb.Bytes.{get16, get32, get64, geti64, store, put16, put32, put64, puti64}
use tfdb.Format.{
  Bool, format_major, format_minor, block_header_encoded_size, block_magic, common_check,
  finish_crc,
}

-- `compression` is the number of a `CompressionId`, which the media may hold outside the enumeration.
pub record BlockHeader : Type 0 where
  pub generation : ℕ
  pub slot : ℕ
  pub sequence : ℕ
  pub flags : ℕ
  pub record_count : ℕ
  pub stored_size : ℕ
  pub raw_size : ℕ
  pub frame_span : ℕ
  pub min_time_ns : ℤ
  pub max_time_ns : ℤ
  pub compression : ℕ
  pub compression_version : ℕ
  pub payload_crc : ℕ
  pub volume_id_low : ℕ
  pub volume_id_high : ℕ
  pub writer_id_high : ℕ
  pub writer_id_low : ℕ
  pub previous_writer_id_high : ℕ
  pub previous_writer_id_low : ℕ

-- All fields but the checksum.
unfoldable pub block_header_fields : BlockHeader → List ℕ
unfolding store put16 put32 put64 puti64
block_header_fields h =
    let out = replicate block_header_encoded_size 0 in
    let out = store out 0 block_magic in
    let out = put16 out 8 format_major in
    let out = put16 out 10 format_minor in
    let out = put32 out 12 block_header_encoded_size in
    let out = put64 out 16 h.generation in
    let out = put32 out 24 h.sequence in
    let out = put32 out 28 h.flags in
    let out = put32 out 32 h.record_count in
    let out = put32 out 36 h.stored_size in
    let out = put32 out 40 h.raw_size in
    let out = put32 out 44 h.frame_span in
    let out = puti64 out 48 h.min_time_ns in
    let out = puti64 out 56 h.max_time_ns in
    let out = put16 out 64 h.compression in
    let out = put16 out 66 h.compression_version in
    let out = put32 out 68 h.payload_crc in
    let out = put32 out 76 h.slot in
    let out = put64 out 80 h.volume_id_low in
    let out = put64 out 88 h.volume_id_high in
    let out = put64 out 96 h.writer_id_high in
    let out = put64 out 104 h.writer_id_low in
    let out = put64 out 112 h.previous_writer_id_high in put64 out 120 h.previous_writer_id_low

unfoldable pub encode_block_header : BlockHeader → List ℕ
unfolding block_header_fields finish_crc
encode_block_header h = finish_crc (block_header_fields h) 72

-- The assignments of `decode_block_header`.
unfoldable pub load_block_header : List ℕ → BlockHeader
unfolding get16 get32 get64 geti64
load_block_header bs = record {
  generation = get64 bs 16;
  sequence = get32 bs 24;
  flags = get32 bs 28;
  record_count = get32 bs 32;
  stored_size = get32 bs 36;
  raw_size = get32 bs 40;
  frame_span = get32 bs 44;
  min_time_ns = geti64 bs 48;
  max_time_ns = geti64 bs 56;
  compression = get16 bs 64;
  compression_version = get16 bs 66;
  payload_crc = get32 bs 68;
  slot = get32 bs 76;
  volume_id_low = get64 bs 80;
  volume_id_high = get64 bs 88;
  writer_id_high = get64 bs 96;
  writer_id_low = get64 bs 104;
  previous_writer_id_high = get64 bs 112;
  previous_writer_id_low = get64 bs 120;
}

-- `kBlockHeaderEncodedSize + stored_size` is a sum of `uint32_t`, so it wraps.
abbrev pub bad_bounds : BlockHeader → Bool
bad_bounds h =
    h.stored_size == 0
    || h.raw_size == 0
    || h.record_count == 0
    || (h.writer_id_high == 0 && h.writer_id_low == 0)
    || ltb_ℤ h.max_time_ns h.min_time_ns
    || ltb h.frame_span ((block_header_encoded_size + h.stored_size) % 2 ^ 32)

unfoldable pub decode_block_header : List ℕ → Result BlockHeader
decode_block_header bs = do
  common_check bs block_magic block_header_encoded_size 72
  let h = load_block_header bs
  reject_if (bad_bounds h) ErrorCode.corrupt
  returns h

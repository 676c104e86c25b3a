-- ===== src/Format/Volume.antt =====
-- `VolumeHeader`, `encode_volume_header` and `decode_volume_header`.
pub mod RoundTrip
use tfdb.Prelude.{ℕ, ◌-◌, Bool, not, ◌||◌, ◌==◌, ltb, List, drop, take, replicate, ℤ}
use tfdb.Status.{ErrorCode, Result, returns, ◌>>=◌, ◌>>◌, reject_if}
use tfdb.Bytes.{get32, get64, geti64, store, put16, put32, put64, puti64}
use tfdb.Format.{
  format_major, format_minor, volume_header_encoded_size, volume_magic, common_check, all_zero,
  finish_crc,
}

pub record VolumeHeader : Type 0 where
  pub volume_id_high : ℕ
  pub volume_id_low : ℕ
  pub volume_size : ℕ
  pub partition_size : ℕ
  pub partition_count : ℕ
  pub index_region_size : ℕ
  pub max_block_payload : ℕ
  pub persistence_quantum : ℕ
  pub created_time_ns : ℤ

-- All fields but the checksum.
unfoldable pub volume_header_fields : VolumeHeader → List ℕ
unfolding store put16 put32 put64 puti64
volume_header_fields h =
    let out = replicate volume_header_encoded_size 0 in
    let out = store out 0 volume_magic in
    let out = put16 out 8 format_major in
    let out = put16 out 10 format_minor in
    let out = put32 out 12 volume_header_encoded_size in
    let out = put64 out 16 h.volume_id_high in
    let out = put64 out 24 h.volume_id_low in
    let out = put64 out 32 h.volume_size in
    let out = put64 out 40 h.partition_size in
    let out = put32 out 48 h.partition_count in
    let out = put32 out 52 h.index_region_size in
    let out = put32 out 56 h.max_block_payload in
    let out = put32 out 60 h.persistence_quantum in puti64 out 64 h.created_time_ns

unfoldable pub encode_volume_header : VolumeHeader → List ℕ
unfolding volume_header_fields finish_crc
encode_volume_header h = finish_crc (volume_header_fields h) 72

-- The assignments of `decode_volume_header`.
unfoldable pub load_volume_header : List ℕ → VolumeHeader
unfolding get32 get64 geti64
load_volume_header bs = record {
  volume_id_high = get64 bs 16;
  volume_id_low = get64 bs 24;
  volume_size = get64 bs 32;
  partition_size = get64 bs 40;
  partition_count = get32 bs 48;
  index_region_size = get32 bs 52;
  max_block_payload = get32 bs 56;
  persistence_quantum = get32 bs 60;
  created_time_ns = geti64 bs 64;
}

unfoldable pub decode_volume_header : List ℕ → Result VolumeHeader
decode_volume_header bs = do
  common_check bs volume_magic volume_header_encoded_size 72
  reject_if (not (all_zero (take (volume_header_encoded_size - 76) (drop 76 bs)))) ErrorCode.corrupt
  let h = load_volume_header bs
  reject_if
      (ltb h.partition_count 2
        || h.partition_size == 0
        || h.max_block_payload == 0
        || h.persistence_quantum == 0)
      ErrorCode.corrupt
  returns h

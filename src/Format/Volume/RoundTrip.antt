-- ===== src/Format/Volume/RoundTrip.antt =====
-- `encode_volume_header` followed by `decode_volume_header`.
use tfdb.Prelude.{◌||◌, if◌then◌else◌, ◌^◌, ◌<◌, ◌≡◌, refl, arith, true, ◌==◌}
use tfdb.Status.{returns}
use tfdb.Bytes.{gather, get16, get32, le_bytes}
use tfdb.Bytes.Endian.{to_i64-gather, gather-le_bytes, IsI64}
use tfdb.Format.{ErrorCode, fails, ltb, drop, take, magic_is, volume_magic, common_check, all_zero}
use tfdb.Format.Volume.{
  VolumeHeader, encode_volume_header, volume_header_fields, load_volume_header,
  decode_volume_header,
}
use tfdb.Format.Seal.{common_check-sealed}

-- The fields fit their C++ types, and the geometry is one that the decoder admits.
pub record IsEncodable (h : VolumeHeader) : Type 0 where
  pub id_high_fits : h.volume_id_high < 2 ^ 64
  pub id_low_fits : h.volume_id_low < 2 ^ 64
  pub size_fits : h.volume_size < 2 ^ 64
  pub partition_fits : h.partition_size < 2 ^ 64
  pub count_fits : h.partition_count < 2 ^ 32
  pub index_fits : h.index_region_size < 2 ^ 32
  pub payload_fits : h.max_block_payload < 2 ^ 32
  pub quantum_fits : h.persistence_quantum < 2 ^ 32
  pub time_fits : IsI64 h.created_time_ns

load-encode : (h : VolumeHeader) → IsEncodable h → load_volume_header (encode_volume_header h) ≡ h
unfolding load_volume_header encode_volume_header le_bytes
load-encode h e = λ i. record {
  volume_id_high = gather-le_bytes 8 h.volume_id_high e.id_high_fits i;
  volume_id_low = gather-le_bytes 8 h.volume_id_low e.id_low_fits i;
  volume_size = gather-le_bytes 8 h.volume_size e.size_fits i;
  partition_size = gather-le_bytes 8 h.partition_size e.partition_fits i;
  partition_count = gather-le_bytes 4 h.partition_count e.count_fits i;
  index_region_size = gather-le_bytes 4 h.index_region_size e.index_fits i;
  max_block_payload = gather-le_bytes 4 h.max_block_payload e.payload_fits i;
  persistence_quantum = gather-le_bytes 4 h.persistence_quantum e.quantum_fits i;
  created_time_ns = to_i64-gather h.created_time_ns e.time_fits i;
}

checks-encode :
    (h : VolumeHeader) → common_check (encode_volume_header h) volume_magic 256 72 ≡ returns tt
unfolding encode_volume_header
checks-encode h =
    common_check-sealed (volume_header_fields h) volume_magic 256 72
      (unfold volume_header_fields in refl) (omega arith)
      (unfold encode_volume_header magic_is le_bytes in refl)
      (unfold encode_volume_header get16 gather le_bytes in refl)
      (unfold encode_volume_header get16 gather le_bytes in refl)
      (unfold encode_volume_header get32 gather le_bytes in refl)

reserved-encode : (h : VolumeHeader) → all_zero (take 180 (drop 76 (encode_volume_header h))) ≡ true
unfolding encode_volume_header all_zero le_bytes
reserved-encode h = refl

-- A volume header whose fields fit their widths on the media, once encoded, is decoded to itself, and
-- refused as corrupt exactly when the header asks for fewer than two partitions, or for a partition, a
-- block or a quantum of size zero.
pub decode_volume_header-encode :
    (h : VolumeHeader)
    → IsEncodable h
    → decode_volume_header (encode_volume_header h) ≡ (
        if ltb h.partition_count 2
          || h.partition_size == 0
          || h.max_block_payload == 0
          || h.persistence_quantum == 0
        then fails ErrorCode.corrupt
        else returns h)
unfolding decode_volume_header
decode_volume_header-encode h e =
    rw (checks-encode h, reserved-encode h, load-encode h e) (ground arith)

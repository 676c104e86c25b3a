-- ===== src/Format/Footer/RoundTrip.antt =====
-- `encode_partition_footer` followed by `decode_partition_footer`.
use tfdb.Prelude.{if◌then◌else◌, ◌^◌, ◌<◌, ◌≡◌, refl, arith}
use tfdb.Status.{fails, returns}
use tfdb.Format.Footer.{
  take, ErrorCode, footer_magic, common_check, all_zero, PartitionFooter, encode_partition_footer,
  partition_footer_fields, load_partition_footer, decode_partition_footer, bad_bounds,
}
use tfdb.Bytes.{get16, gather, get32, le_bytes}
use tfdb.Bytes.Endian.{to_i64-gather, gather-le_bytes, IsI64}
use tfdb.Format.Seal.{common_check-sealed}
use tfdb.Format.{true, drop, magic_is}

-- The fields fit their C++ types.
pub record IsEncodable (f : PartitionFooter) : Type 0 where
  pub id_high_fits : f.volume_id_high < 2 ^ 64
  pub id_low_fits : f.volume_id_low < 2 ^ 64
  pub generation_fits : f.generation < 2 ^ 64
  pub slot_fits : f.slot < 2 ^ 32
  pub flags_fit : f.flags < 2 ^ 32
  pub count_fits : f.block_count < 2 ^ 32
  pub offset_fits : f.index_offset < 2 ^ 64
  pub size_fits : f.index_size < 2 ^ 32
  pub end_fits : f.data_end < 2 ^ 64
  pub min_fits : IsI64 f.min_time_ns
  pub max_fits : IsI64 f.max_time_ns
  pub crc_fits : f.index_crc < 2 ^ 32

load-encode :
    (f : PartitionFooter) → IsEncodable f → load_partition_footer (encode_partition_footer f) ≡ f
unfolding load_partition_footer encode_partition_footer le_bytes
load-encode f e = λ i. record {
  volume_id_high = gather-le_bytes 8 f.volume_id_high e.id_high_fits i;
  volume_id_low = gather-le_bytes 8 f.volume_id_low e.id_low_fits i;
  generation = gather-le_bytes 8 f.generation e.generation_fits i;
  slot = gather-le_bytes 4 f.slot e.slot_fits i;
  flags = gather-le_bytes 4 f.flags e.flags_fit i;
  block_count = gather-le_bytes 4 f.block_count e.count_fits i;
  index_offset = gather-le_bytes 8 f.index_offset e.offset_fits i;
  index_size = gather-le_bytes 4 f.index_size e.size_fits i;
  data_end = gather-le_bytes 8 f.data_end e.end_fits i;
  min_time_ns = to_i64-gather f.min_time_ns e.min_fits i;
  max_time_ns = to_i64-gather f.max_time_ns e.max_fits i;
  index_crc = gather-le_bytes 4 f.index_crc e.crc_fits i;
}

checks-encode :
    (f : PartitionFooter)
    → common_check (encode_partition_footer f) footer_magic 256 100 ≡ returns tt
unfolding encode_partition_footer
checks-encode f =
    common_check-sealed (partition_footer_fields f) footer_magic 256 100
      (unfold partition_footer_fields in refl) (omega arith)
      (unfold encode_partition_footer magic_is le_bytes in refl)
      (unfold encode_partition_footer get16 gather le_bytes in refl)
      (unfold encode_partition_footer get16 gather le_bytes in refl)
      (unfold encode_partition_footer get32 gather le_bytes in refl)

reserved-encode :
    (f : PartitionFooter)
    → (all_zero (take 4 (drop 68 (encode_partition_footer f))) ≡ true)
      × (all_zero (take 152 (drop 104 (encode_partition_footer f))) ≡ true)
      × (get32 (encode_partition_footer f) 52 ≡ 48)
unfolding encode_partition_footer all_zero le_bytes get32 gather
reserved-encode f = (refl, refl, refl)

-- A partition footer whose fields fit their widths on the media, once encoded, is decoded to itself,
-- and refused as corrupt exactly when the decoder's bounds test fails on it.
pub decode_partition_footer-encode :
    (f : PartitionFooter)
    → IsEncodable f
    → decode_partition_footer (encode_partition_footer f)
      ≡ (if bad_bounds f then fails ErrorCode.corrupt else returns f)
unfolding decode_partition_footer
decode_partition_footer-encode f e =
    rw
      (
        checks-encode f,
        (reserved-encode f).0,
        (reserved-encode f).1,
        (reserved-encode f).2,
        load-encode f e,
      )
      (ground arith)

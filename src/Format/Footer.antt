-- ===== src/Format/Footer.antt =====
-- `PartitionFooter`, `encode_partition_footer` and `decode_partition_footer`.
pub mod RoundTrip
use tfdb.Prelude.{ℕ, ◌-◌, ◌*◌, Bool, not, ◌&&◌, ◌||◌, ◌==◌, List, drop, take, replicate, ℤ, ltb_ℤ}
use tfdb.Status.{ErrorCode, Result, returns, ◌>>=◌, ◌>>◌, reject_if}
use tfdb.Bytes.{get32, get64, geti64, store, put16, put32, put64, puti64}
use tfdb.Format.{
  format_major, format_minor, partition_footer_encoded_size, index_entry_encoded_size, footer_magic,
  common_check, all_zero, finish_crc,
}

pub record PartitionFooter : Type 0 where
  pub volume_id_high : ℕ
  pub volume_id_low : ℕ
  pub generation : ℕ
  pub slot : ℕ
  pub flags : ℕ
  pub block_count : ℕ
  pub index_offset : ℕ
  pub index_size : ℕ
  pub data_end : ℕ
  pub min_time_ns : ℤ
  pub max_time_ns : ℤ
  pub index_crc : ℕ

-- All fields but the checksum.
unfoldable pub partition_footer_fields : PartitionFooter → List ℕ
unfolding store put16 put32 put64 puti64
partition_footer_fields f =
    let out = replicate partition_footer_encoded_size 0 in
    let out = store out 0 footer_magic in
    let out = put16 out 8 format_major in
    let out = put16 out 10 format_minor in
    let out = put32 out 12 partition_footer_encoded_size in
    let out = put64 out 16 f.volume_id_high in
    let out = put64 out 24 f.volume_id_low in
    let out = put64 out 32 f.generation in
    let out = put32 out 40 f.slot in
    let out = put32 out 44 f.flags in
    let out = put32 out 48 f.block_count in
    let out = put32 out 52 index_entry_encoded_size in
    let out = put64 out 56 f.index_offset in
    let out = put32 out 64 f.index_size in
    let out = put64 out 72 f.data_end in
    let out = puti64 out 80 f.min_time_ns in
    let out = puti64 out 88 f.max_time_ns in put32 out 96 f.index_crc

unfoldable pub encode_partition_footer : PartitionFooter → List ℕ
unfolding partition_footer_fields finish_crc
encode_partition_footer f = finish_crc (partition_footer_fields f) 100

-- The assignments of `decode_partition_footer`.
unfoldable pub load_partition_footer : List ℕ → PartitionFooter
unfolding get32 get64 geti64
load_partition_footer bs = record {
  volume_id_high = get64 bs 16;
  volume_id_low = get64 bs 24;
  generation = get64 bs 32;
  slot = get32 bs 40;
  flags = get32 bs 44;
  block_count = get32 bs 48;
  index_offset = get64 bs 56;
  index_size = get32 bs 64;
  data_end = get64 bs 72;
  min_time_ns = geti64 bs 80;
  max_time_ns = geti64 bs 88;
  index_crc = get32 bs 96;
}

abbrev pub bad_bounds : PartitionFooter → Bool
bad_bounds f =
    not (f.index_size == f.block_count * index_entry_encoded_size)
    || (not (f.block_count == 0) && ltb_ℤ f.max_time_ns f.min_time_ns)

unfoldable pub decode_partition_footer : List ℕ → Result PartitionFooter
decode_partition_footer bs = do
  common_check bs footer_magic partition_footer_encoded_size 100
  reject_if
      (not (all_zero (take 4 (drop 68 bs)))
        || not (all_zero (take (partition_footer_encoded_size - 104) (drop 104 bs))))
      ErrorCode.corrupt
  reject_if (not (get32 bs 52 == index_entry_encoded_size)) ErrorCode.unsupported
  let f = load_partition_footer bs
  reject_if (bad_bounds f) ErrorCode.corrupt
  returns f

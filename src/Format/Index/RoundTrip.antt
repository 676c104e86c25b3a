-- ===== src/Format/Index/RoundTrip.antt =====
-- `encode_index` followed by `decode_index`.
use tfdb.Prelude.{
  ◌/◌, ◌%◌, length-append, ◌*◌, ◌≤ℤ◌, ◌≤◌, map, ◌^◌, ◌<◌, ◌≡◌, refl, arith, List, [], ◌∷◌,
}
use tfdb.Status.{returns}
use tfdb.Bytes.{le_bytes}
use tfdb.Bytes.Endian.{gather-le_bytes, to_i64-gather, IsI64}
use tfdb.Format.Index.{
  replicate, length, ◌∷◌, IndexEntry, encode_index_entry, load_index_entry, decode_index_entry,
  encode_index, decode_entries, decode_index,
}
use tfdb.Bytes.Store.{drop-exact, take-exact}

-- The fields fit their C++ types, and the entry is one that the decoder admits.
pub record IsEncodable (e : IndexEntry) : Type 0 where
  pub offset_fits : e.offset < 2 ^ 64
  pub size_fits : e.frame_size < 2 ^ 32
  pub span_fits : e.frame_span < 2 ^ 32
  pub sequence_fits : e.sequence < 2 ^ 32
  pub count_fits : e.record_count < 2 ^ 32
  pub min_fits : IsI64 e.min_time_ns
  pub max_fits : IsI64 e.max_time_ns
  pub flags_fit : e.flags < 2 ^ 32
  pub raw_fits : e.raw_size < 2 ^ 32
  pub has_header : 128 ≤ e.frame_size
  pub within_span : e.frame_size ≤ e.frame_span
  pub has_records : 0 < e.record_count
  pub ordered : e.min_time_ns ≤ℤ e.max_time_ns

-- What the media keep of an entry.
abbrev pub without_writer : IndexEntry → IndexEntry
without_writer e = record e { writer_id_high = 0; writer_id_low = 0 }

load-encode :
    (e : IndexEntry)
    → IsEncodable e
    → load_index_entry (encode_index_entry e (replicate 48 0)) ≡ without_writer e
unfolding load_index_entry encode_index_entry le_bytes
load-encode e h = λ i. record {
  offset = gather-le_bytes 8 e.offset h.offset_fits i;
  frame_size = gather-le_bytes 4 e.frame_size h.size_fits i;
  frame_span = gather-le_bytes 4 e.frame_span h.span_fits i;
  sequence = gather-le_bytes 4 e.sequence h.sequence_fits i;
  record_count = gather-le_bytes 4 e.record_count h.count_fits i;
  min_time_ns = to_i64-gather e.min_time_ns h.min_fits i;
  max_time_ns = to_i64-gather e.max_time_ns h.max_fits i;
  flags = gather-le_bytes 4 e.flags h.flags_fit i;
  raw_size = gather-le_bytes 4 e.raw_size h.raw_fits i;
  writer_id_high = 0;
  writer_id_low = 0;
}

length-encode_entry : (e : IndexEntry) → length (encode_index_entry e (replicate 48 0)) ≡ 48
unfolding encode_index_entry le_bytes
length-encode_entry e = refl

decode-encode_entry :
    (e : IndexEntry)
    → IsEncodable e
    → decode_index_entry (encode_index_entry e (replicate 48 0)) ≡ returns (without_writer e)
unfolding decode_index_entry
decode-encode_entry e h = rw (length-encode_entry e, load-encode e h) (ground arith)

abbrev pub AllEncodable : List IndexEntry → Type 0
AllEncodable [] = Unit {0}
AllEncodable (e ∷ es) = IsEncodable e × AllEncodable es

length-encode_index : (es : List IndexEntry) → length (encode_index es) ≡ 48 * length es
unfolding encode_index
length-encode_index [] = refl
length-encode_index (e ∷ es) = omega (
  arith,
  length-append (encode_index_entry e (replicate 48 0)) (encode_index es),
  length-encode_entry e,
  length-encode_index es,
)

decode_entries-encode :
    (es : List IndexEntry)
    → AllEncodable es
    → decode_entries (length es) (encode_index es) ≡ returns (map without_writer es)
unfolding decode_entries encode_index
decode_entries-encode [] h = refl
decode_entries-encode (e ∷ es) h =
    let front = encode_index_entry e (replicate 48 0) in
    rw (
      take-exact 48 front (encode_index es) (length-encode_entry e),
      drop-exact 48 front (encode_index es) (length-encode_entry e),
      decode-encode_entry e h.0,
      decode_entries-encode es h.1,
    )

-- Index entries whose fields fit their widths on the media and that the decoder's tests accept, once
-- encoded, are decoded to the same entries, in order and without their writers.
pub decode_index-encode :
    (es : List IndexEntry)
    → AllEncodable es
    → decode_index (encode_index es) ≡ returns (map without_writer es)
unfolding decode_index
decode_index-encode es h =
    let whole : 48 * length es % 48 ≡ 0 = omega arith in
    let rounds : 48 * length es / 48 ≡ length es = omega arith in
    rw (length-encode_index es, whole, rounds) (decode_entries-encode es h)

-- ===== src/Format/Index.antt =====
-- `IndexEntry` and the index of a sealed partition: `encode_index_entry`, `decode_index_entry`,
-- `encode_index`, `decode_index`.
pub mod RoundTrip
use tfdb.Prelude.{
  ℕ, zero, suc, ◌+◌, ◌/◌, ◌%◌, not, ◌||◌, ◌==◌, ltb, List, [], ◌∷◌, ◌++◌, take, drop, length,
  replicate, ℤ, ltb_ℤ,
}
use tfdb.Status.{ErrorCode, Result, returns, ◌>>=◌, ◌>>◌, reject_if}
use tfdb.Bytes.{get32, get64, geti64, put32, put64, puti64}
use tfdb.Format.{index_entry_encoded_size, block_header_encoded_size}

-- The writer's identity is not serialised.
pub record IndexEntry : Type 0 where
  pub offset : ℕ
  pub frame_size : ℕ
  pub frame_span : ℕ
  pub sequence : ℕ
  pub record_count : ℕ
  pub min_time_ns : ℤ
  pub max_time_ns : ℤ
  pub flags : ℕ
  pub raw_size : ℕ
  pub writer_id_high : ℕ
  pub writer_id_low : ℕ

-- Stores into the 48 bytes at `output`.
unfoldable pub encode_index_entry : IndexEntry → List ℕ → List ℕ
unfolding put32 put64 puti64
encode_index_entry e out =
    let out = put64 out 0 e.offset in
    let out = put32 out 8 e.frame_size in
    let out = put32 out 12 e.frame_span in
    let out = put32 out 16 e.sequence in
    let out = put32 out 20 e.record_count in
    let out = puti64 out 24 e.min_time_ns in
    let out = puti64 out 32 e.max_time_ns in
    let out = put32 out 40 e.flags in put32 out 44 e.raw_size

-- The assignments of `decode_index_entry`, to an entry that starts with a zero writer.
unfoldable pub load_index_entry : List ℕ → IndexEntry
unfolding get32 get64 geti64
load_index_entry bs = record {
  offset = get64 bs 0;
  frame_size = get32 bs 8;
  frame_span = get32 bs 12;
  sequence = get32 bs 16;
  record_count = get32 bs 20;
  min_time_ns = geti64 bs 24;
  max_time_ns = geti64 bs 32;
  flags = get32 bs 40;
  raw_size = get32 bs 44;
  writer_id_high = 0;
  writer_id_low = 0;
}

unfoldable pub decode_index_entry : List ℕ → Result IndexEntry
decode_index_entry bs = do
  reject_if (ltb (length bs) index_entry_encoded_size) ErrorCode.corrupt
  let e = load_index_entry bs
  reject_if
      (ltb e.frame_size block_header_encoded_size
        || ltb e.frame_span e.frame_size
        || e.record_count == 0
        || ltb_ℤ e.max_time_ns e.min_time_ns)
      ErrorCode.corrupt
  returns e

-- The entries stand side by side, each stored over 48 zero bytes.
unfoldable pub encode_index : List IndexEntry → List ℕ
unfolding encode_index_entry
encode_index [] = []
encode_index (e ∷ es) =
    encode_index_entry e (replicate index_entry_encoded_size 0) ++ encode_index es

-- The loop of `decode_index`, with the rounds left. An error drops the entries read so far.
unfoldable pub decode_entries : ℕ → List ℕ → Result (List IndexEntry)
decode_entries zero bs = returns []
decode_entries (suc rounds) bs = do
  e ← decode_index_entry (take index_entry_encoded_size bs)
  es ← decode_entries rounds (drop index_entry_encoded_size bs)
  returns (e ∷ es)

unfoldable pub decode_index : List ℕ → Result (List IndexEntry)
unfolding decode_entries
decode_index bs = do
  reject_if (not (length bs % index_entry_encoded_size == 0)) ErrorCode.corrupt
  decode_entries (length bs / index_entry_encoded_size) bs

-- ===== src/RingStore/Reader/Index.antt =====
-- `load_index` and `summarize`.
use tfdb.Prelude.{
  ℕ, ◌+◌, ◌%◌, ◌^◌, bit_or, Bool, true, false, not, ◌||◌, List, [], ◌∷◌, ltb, ◌==◌, if◌then◌else◌,
  length, ltb_ℤ, min_ℤ, max_ℤ,
}
use tfdb.Status.{ErrorCode, Result, returns, fails}
use tfdb.Crc.{crc32c}
use tfdb.Format.{partition_header_region_size, block_header_encoded_size}
use tfdb.Format.Volume.{VolumeHeader}
use tfdb.Format.Index.{IndexEntry, decode_index}
use tfdb.RingStore.State.{Device, PartitionState, partition_base, index_begin, add64, sub64}
use tfdb.RingStore.Reader.Reads.{Reads, ◌>>=◌, ◌>>◌, give, stop, lift, reject}
use tfdb.RingStore.Reader.Scan.{span_is}

abbrev pub bad_entry : VolumeHeader → ℕ → ℕ → IndexEntry → Bool
bad_entry v i expected_offset e =
    not (e.sequence == i)
    || not (e.offset == expected_offset)
    || e.record_count == 0
    || ltb_ℤ e.max_time_ns e.min_time_ns
    || ltb e.frame_size block_header_encoded_size
    || ltb ((block_header_encoded_size + v.max_block_payload) % 2 ^ 32) e.frame_size
    || ltb v.max_block_payload e.raw_size
    || not (e.frame_span % v.persistence_quantum == 0)
    || ltb (sub64 (index_begin v) e.offset) e.frame_span

-- The loop over the entries, from number `i`; the offset after the last one.
unfoldable pub check_entries : VolumeHeader → ℕ → ℕ → List IndexEntry → Result ℕ
check_entries v i expected_offset [] = returns expected_offset
check_entries v i expected_offset (e ∷ es) =
    if bad_entry v i expected_offset e || not (span_is v e.frame_size e.frame_span)
    then fails ErrorCode.corrupt
    else check_entries v (i + 1) (add64 expected_offset e.frame_span) es

module _ {S : Type 0} (dev : Device S) (v : VolumeHeader) where
  unfoldable pub load_index : PartitionState → Reads S (List IndexEntry)
  unfolding check_entries
  load_index p =
      if not p.sealed
      then stop ErrorCode.invalid_argument
      else if p.footer.index_size == 0
      then give []
      else do
        bs ←
            dev.read (add64 (partition_base v p.header.slot) p.footer.index_offset)
              p.footer.index_size
        reject (not (crc32c bs == p.footer.index_crc)) ErrorCode.corrupt
        entries ← lift (decode_index bs)
        reject (not (length entries == p.footer.block_count)) ErrorCode.corrupt
        last ← lift (check_entries v 0 partition_header_region_size entries)
        reject (not (last == p.footer.data_end)) ErrorCode.corrupt
        give entries

-- One round of `summarize`.
unfoldable pub widen : IndexEntry → PartitionState → PartitionState
widen e p = record p {
  aggregate_flags = bit_or p.aggregate_flags e.flags;
  has_time = true;
  min_time_ns = if p.has_time then min_ℤ p.min_time_ns e.min_time_ns else e.min_time_ns;
  max_time_ns = if p.has_time then max_ℤ p.max_time_ns e.max_time_ns else e.max_time_ns;
}

unfoldable pub widen_all : List IndexEntry → PartitionState → PartitionState
unfolding widen
widen_all [] p = p
widen_all (e ∷ es) p = widen_all es (widen e p)

unfoldable pub summarize : PartitionState → PartitionState
unfolding widen_all
summarize p = widen_all p.active_index (record p {
  aggregate_flags = 0;
  has_time = false;
  block_count = length p.active_index % 2 ^ 32;
})

-- ===== src/RingStore/Opener/Strict.antt =====
-- `verify_payloads_on_open`: the blocks of a partition scanned and decoded.
use tfdb.Prelude.{
  ℕ, bit_or, Bool, true, false, not, ◌&&◌, ◌||◌, List, [], ◌∷◌, ◌==◌, length, ℤ, pos, min_ℤ, max_ℤ,
  same_time,
}
use tfdb.Status.{ErrorCode}
use tfdb.Format.Volume.{VolumeHeader}
use tfdb.Format.Index.{IndexEntry}
use tfdb.Format.Footer.{PartitionFooter}
use tfdb.Codec.{CompressionCodec}
use tfdb.RingStore.State.{Device, PartitionState}
use tfdb.RingStore.Reader.Reads.{Reads, ◌>>=◌, ◌>>◌, give, reject}
use tfdb.RingStore.Reader.Scan.{scan_partition}
use tfdb.RingStore.Reader.Index.{load_index}
use tfdb.RingStore.Reader.Block.{read_block}

-- The writer of a block is not part of the test, since an index does not store it.
abbrev pub same_index_entry : IndexEntry → IndexEntry → Bool
same_index_entry a b =
    a.offset == b.offset
    && a.frame_size == b.frame_size
    && a.frame_span == b.frame_span
    && a.sequence == b.sequence
    && a.record_count == b.record_count
    && same_time a.min_time_ns b.min_time_ns
    && same_time a.max_time_ns b.max_time_ns
    && a.flags == b.flags
    && a.raw_size == b.raw_size

-- The loop over two lists of one length.
unfoldable pub same_entries : List IndexEntry → List IndexEntry → Bool
same_entries [] bs = true
same_entries (a ∷ es) [] = false
same_entries (a ∷ es) (b ∷ bs) = same_index_entry a b && same_entries es bs

unfoldable pub or_flags : List IndexEntry → ℕ → ℕ
or_flags [] flags = flags
or_flags (e ∷ es) flags = or_flags es (bit_or flags e.flags)

unfoldable pub least_time : List IndexEntry → ℤ → ℤ
least_time [] t = t
least_time (e ∷ es) t = least_time es (min_ℤ t e.min_time_ns)

unfoldable pub greatest_time : List IndexEntry → ℤ → ℤ
greatest_time [] t = t
greatest_time (e ∷ es) t = greatest_time es (max_ℤ t e.max_time_ns)

abbrev pub scanned_min_time : List IndexEntry → ℤ
scanned_min_time [] = pos 0
scanned_min_time (e ∷ es) = least_time (e ∷ es) e.min_time_ns

abbrev pub scanned_max_time : List IndexEntry → ℤ
scanned_max_time [] = pos 0
scanned_max_time (e ∷ es) = greatest_time (e ∷ es) e.max_time_ns

unfoldable pub summary_disagrees : PartitionFooter → List IndexEntry → Bool
unfolding or_flags least_time greatest_time
summary_disagrees f scanned =
    not (f.flags == or_flags scanned 0)
    || not (same_time f.min_time_ns (scanned_min_time scanned))
    || not (same_time f.max_time_ns (scanned_max_time scanned))

module _ {S : Type 0} (dev : Device S) (v : VolumeHeader) (codecs : List CompressionCodec) where
  unfoldable pub decode_all : PartitionState → List IndexEntry → Reads S (Unit {0})
  unfolding read_block
  decode_all p [] = give tt
  decode_all p (e ∷ es) = do block ← read_block dev v codecs p e; decode_all p es

  unfoldable pub verify_sealed : PartitionState → Reads S (Unit {0})
  unfolding load_index scan_partition same_entries summary_disagrees decode_all
  verify_sealed p = do
    indexed ← load_index dev v p
    scanned ← scan_partition dev v p.header p.footer.data_end
    reject
        (not (scanned.data_end == p.footer.data_end)
          || not (length scanned.entries == length indexed))
        ErrorCode.corrupt
    reject (not (same_entries scanned.entries indexed)) ErrorCode.corrupt
    reject (summary_disagrees p.footer scanned.entries) ErrorCode.corrupt
    decode_all p indexed

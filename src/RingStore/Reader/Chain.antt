-- ===== src/RingStore/Reader/Chain.antt =====
-- The entries of a partition, by whichever way they are acquired.
use tfdb.Prelude.{
  same, positive, neither, not_below, ℕ, suc, ◌+◌, ◌-◌, ◌*◌, ◌%◌, ◌^◌, ◌≤◌, ◌<◌, ◌≡◌, sym, inl, inr,
  true, false, not, ◌&&◌, ◌||◌, List, [], ◌∷◌, arith, ◌==◌, Bool-cases, length, ltb_ℤ,
}
use tfdb.Status.{ErrorCode, returns}
use tfdb.Crc.{crc32c}
use tfdb.Format.{partition_header_region_size, index_entry_encoded_size, align_up}
use tfdb.Format.Volume.{VolumeHeader}
use tfdb.Format.Index.{IndexEntry, decode_index}
use tfdb.Format.Footer.{PartitionFooter}
use tfdb.Format.Partition.{PartitionHeader}
use tfdb.RingStore.State.{Device, PartitionState, partition_base, index_begin, add64, sub64}
use tfdb.RingStore.Reader.Reads.{◌>>=◌, ◌>>◌, give, stop, lift}
use tfdb.RingStore.Reader.Slots.{bad_footer}
use tfdb.RingStore.Reader.Scan.{span_is}
use tfdb.RingStore.Reader.Index.{bad_entry, check_entries, load_index}
use tfdb.RingStore.Reader.Ends.{
  Ends, well, badly, after-Ends, reject-Ends, then-Ends, lift-Ends, value-Ends,
}
use tfdb.Status.{reject_if}

-- Frames side by side from `from` to `to`, numbered by `next` from `i`, each of whole quanta and of a
-- record at least, and long enough for its frame.
abbrev pub IsChain : VolumeHeader → (ℕ → ℕ) → ℕ → ℕ → List IndexEntry → ℕ → Type 0
IsChain v next i from [] to = from ≡ to
IsChain v next i from (e ∷ es) to =
    (e.offset ≡ from)
    × (e.sequence ≡ i)
    × (1 ≤ e.record_count)
    × (e.raw_size ≤ v.max_block_payload)
    × (e.frame_span % v.persistence_quantum ≡ 0)
    × (ltb_ℤ e.max_time_ns e.min_time_ns ≡ false)
    × (128 ≤ e.frame_span)
    × (e.frame_size ≤ e.frame_span)
    × IsChain v next (next i) (from + e.frame_span) es to

-- The facts that the tests of `load_index` leave of an entry.
entry_facts :
    (v : VolumeHeader) (i from : ℕ) (e : IndexEntry)
    → (bad_entry v i from e ≡ false)
    → (e.offset ≡ from)
      × (e.sequence ≡ i)
      × (1 ≤ e.record_count)
      × (e.raw_size ≤ v.max_block_payload)
      × (e.frame_span % v.persistence_quantum ≡ 0)
      × (ltb_ℤ e.max_time_ns e.min_time_ns ≡ false)
      × (e.frame_span ≤ sub64 (index_begin v) e.offset)
      × (128 ≤ e.frame_size)
entry_facts v i from e h0 =
    let (h1, span) = neither h0 in
    let (h2, quanta) = neither h1 in
    let (h3, raw) = neither h2 in
    let (h4, large) = neither h3 in
    let (h5, small) = neither h4 in
    let (h6, order) = neither h5 in
    let (h7, count) = neither h6 in
    let (sequence, offset) = neither h7 in
    (
      same offset,
      same sequence,
      ground arith,
      not_below raw,
      same quanta,
      order,
      not_below span,
      not_below small,
    )

-- A frame is never longer than its span.
pub span_room : (v : VolumeHeader) (frame span : ℕ) → (span_is v frame span ≡ true) → frame ≤ span
unfolding align_up
span_room v frame span h = ground arith

pub sub64_exact : (a b : ℕ) → b ≤ a → a < 2 ^ 64 → sub64 a b ≡ a - b
sub64_exact a b h k = omega (arith, h, k)

pub add64_exact : (a b : ℕ) → a + b < 2 ^ 64 → add64 a b ≡ a + b
add64_exact a b h = omega (arith, h)

check_entries-IsChain :
    (v : VolumeHeader) (i from to : ℕ) (es : List IndexEntry)
    → from ≤ index_begin v
    → index_begin v < 2 ^ 64
    → (check_entries v i from es ≡ returns to)
    → IsChain v suc i from es to × (to ≤ index_begin v)
unfolding check_entries
check_entries-IsChain v i from to [] h small e =
    let same_end : from ≡ to = cc in (same_end, rw (sym same_end) h)
check_entries-IsChain v i from to (e ∷ es) h small r =
    elim (Bool-cases (bad_entry v i from e || not (span_is v e.frame_size e.frame_span))) [
      | inl bad ↦ (let wrong = rw bad at r in absurd cc)
      | inr good ↦
          (let (fine, spans) = neither good in
            let r' = rw good at r in
            let (offset, sequence, count, raw, quanta, order, span, least) =
              entry_facts v i from e fine in
            let long = span_room v e.frame_size e.frame_span (positive spans) in
            let room : e.frame_span ≤ index_begin v - from =
              rw (offset, sub64_exact (index_begin v) from h small) at span in
            let fits : from + e.frame_span ≤ index_begin v = omega (arith, room, h) in
            let next_ = add64_exact from e.frame_span (omega (arith, fits, small)) in
            let one : i + 1 ≡ suc i = omega arith in
            let r'' = rw (next_, one) at r' in
            let (rest, bounded) =
              check_entries-IsChain v (suc i) (from + e.frame_span) to es fits small r'' in
            (
              (offset, sequence, count, raw, quanta, order, omega (arith, least, long), long, rest),
              bounded,
            ))
    ]

footer_facts :
    (v : VolumeHeader) (h : PartitionHeader) (f : PartitionFooter)
    → (bad_footer v h f ≡ false)
    → (partition_header_region_size ≤ f.data_end)
      × (f.data_end ≤ index_begin v)
      × (f.index_size ≡ f.block_count * index_entry_encoded_size)
      × ((f.block_count == 0 && not (f.data_end == partition_header_region_size)) ≡ false)
footer_facts v h f h0 =
    let (h1, order) = neither h0 in
    let (h2, empty) = neither h1 in
    let (h3, size) = neither h2 in
    let (h4, quanta) = neither h3 in
    let (h5, last) = neither h4 in
    let (h6, first) = neither h5 in (not_below first, not_below last, same size, empty)

-- Entries that are all of a partition, up to the end that its footer states.
abbrev pub IsWhole : VolumeHeader → PartitionState → List IndexEntry → Type 0
IsWhole v p es =
    IsChain v suc 0 partition_header_region_size es p.footer.data_end
    × (p.footer.data_end ≤ index_begin v)
    × (length es ≡ p.footer.block_count)

no_entries-IsWhole :
    (v : VolumeHeader) (p : PartitionState)
    → (bad_footer v p.header p.footer ≡ false)
    → (p.footer.index_size ≡ 0)
    → IsWhole v p []
no_entries-IsWhole v p fine e =
    let (first, last, size, empty) = footer_facts v p.header p.footer fine in
    let none_ : p.footer.block_count ≡ 0 = omega (arith, size, e) in
    let empty' = rw none_ at empty in (sym (same empty'), last, sym none_)

module _ {S : Type 0} (dev : Device S) (v : VolumeHeader) where
  load_index-Ends :
      (p : PartitionState) (s : S)
      → index_begin v < 2 ^ 64
      → (bad_footer v p.header p.footer ≡ false)
      → Ends (IsWhole v p) (load_index dev v p s)
  unfolding load_index ◌>>=◌ ◌>>◌ give stop lift
  load_index-Ends p s small fine = elim (Bool-cases p.sealed) [
    | inr open_ ↦ rw open_ badly
    | inl sealed ↦ elim (Bool-cases (p.footer.index_size == 0)) [
      | inl none_ ↦ rw (sealed, none_) (well (no_entries-IsWhole v p fine (ground arith)))
      | inr some_ ↦
          rw (sealed, some_)
            (then-Ends
              (dev.read (add64 (partition_base v p.header.slot) p.footer.index_offset)
                p.footer.index_size s)
              (λ bs s1.
                then-Ends (reject_if (not (crc32c bs == p.footer.index_crc)) ErrorCode.corrupt, s1)
                  (λ u s2.
                    then-Ends (decode_index bs, s2)
                      (λ entries s3.
                        after-Ends
                          (reject-Ends (not (length entries == p.footer.block_count))
                            ErrorCode.corrupt)
                          (λ u' s4 count.
                            after-Ends
                              (lift-Ends
                                {Good = λ last.
                                  check_entries v 0 partition_header_region_size entries
                                  ≡ returns last}
                                (check_entries v 0 partition_header_region_size entries)
                                (λ last r. r))
                              (λ last s5 checked.
                                after-Ends
                                  (reject-Ends (not (last == p.footer.data_end)) ErrorCode.corrupt)
                                  (λ u'' s6 ends.
                                    let (first, within, size, empty) =
                                      footer_facts v p.header p.footer fine in
                                    let ends' : last ≡ p.footer.data_end = same ends in
                                    let (chain, bounded) =
                                      check_entries-IsChain v 0 partition_header_region_size last
                                        entries (omega (arith, first, within)) small checked in
                                    let chain' = rw ends' at chain in
                                    well (chain', within, same count))))))))
    ]
  ]

  -- If `load_index` of a sealed partition, whose footer `read_footer` accepts, returns entries, then
  -- they are as many as the footer states, and their frames lie side by side from the start of the data
  -- to the end that the footer states, inside the data region, numbered from 0, each with a record
  -- at least, with times in order and long enough for its frame.
  pub load_index-IsWhole :
      (p : PartitionState) (s : S) (entries : List IndexEntry)
      → index_begin v < 2 ^ 64
      → (bad_footer v p.header p.footer ≡ false)
      → ((load_index dev v p s).0 ≡ returns entries)
      → IsWhole v p entries
  load_index-IsWhole p s entries small fine e = value-Ends (load_index-Ends p s small fine) e

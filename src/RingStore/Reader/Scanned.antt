-- ===== src/RingStore/Reader/Scanned.antt =====
-- What a scan of a partition returns.
use tfdb.Prelude.{
  nonzero, ltb→lt, ℕ, zero, suc, ◌+◌, ◌*◌, ◌/◌, ◌%◌, ◌^◌, ◌≤◌, ◌<◌, ◌≡◌, refl, inl, inr, true,
  false, not, ◌||◌, Option, none, some, arith, ltb, ◌==◌, Bool-cases, ltb_ℤ,
}
use tfdb.Status.{ErrorCode, Result, returns, fails}
use tfdb.Crc.{crc32c}
use tfdb.Format.{partition_header_region_size, block_header_encoded_size}
use tfdb.Format.Volume.{VolumeHeader}
use tfdb.Format.Block.{BlockHeader, decode_block_header}
use tfdb.Format.Index.{IndexEntry}
use tfdb.Format.Partition.{PartitionHeader}
use tfdb.RingStore.State.{Device, partition_base, index_begin, add64, sub64}
use tfdb.RingStore.Reader.Reads.{Reads, ◌>>=◌, ◌>>◌, give, lift}
use tfdb.RingStore.Reader.Scan.{
  scan_on, Scanned, Expected, span_is, breaks_chain, entry_at, after_entry, put_first, at_start,
  accept_block, scan_payload, scan_block, scan_loop, scan_partition, scan_end,
}
use tfdb.RingStore.Reader.Ends.{Ends, well, after-Ends, reject-Ends, then-Ends, value-Ends}
use tfdb.RingStore.Reader.Chain.{IsChain, span_room, sub64_exact, add64_exact}
use tfdb.Prelude.{same, neither, not_below, positive}

abbrev pub wrapping_suc : ℕ → ℕ
wrapping_suc n = (n + 1) % 2 ^ 32

room_of_frame :
    (stored span : ℕ) → 128 + stored ≤ span → (128 ≤ span) × ((128 + stored) % 2 ^ 32 ≤ span)
room_of_frame stored span h = omega (arith, h)

module _ (v : VolumeHeader) (h : PartitionHeader) (limit : ℕ) where
  abbrev pub IsNext : Expected → IndexEntry → Type 0
  IsNext x e =
      (e.offset ≡ x.cursor)
      × (e.sequence ≡ x.sequence)
      × (1 ≤ e.record_count)
      × (e.raw_size ≤ v.max_block_payload)
      × (e.frame_span % v.persistence_quantum ≡ 0)
      × (ltb_ℤ e.max_time_ns e.min_time_ns ≡ false)
      × (128 ≤ e.frame_span)
      × (e.frame_size ≤ e.frame_span)
      × (e.frame_span ≤ sub64 limit x.cursor)

  accepted-IsNext :
      (x : Expected) (b : BlockHeader)
      → (breaks_chain v h limit x b ≡ false)
      → (span_is v (block_header_encoded_size + b.stored_size) b.frame_span ≡ true)
      → IsNext x (entry_at x.cursor b)
  accepted-IsNext x b h0 spans =
      let (h1, span) = neither h0 in
      let (h2, aligned) = neither h1 in
      let (h3, quanta) = neither h2 in
      let (h4, codec) = neither h3 in
      let (h5, raw) = neither h4 in
      let (h6, stored) = neither h5 in
      let (h7, order) = neither h6 in
      let (h8, count) = neither h7 in
      let (h9, sequence) = neither h8 in
      let long = span_room v (block_header_encoded_size + b.stored_size) b.frame_span spans in
      let (least, room) = room_of_frame b.stored_size b.frame_span long in
      (
        refl,
        same sequence,
        nonzero count,
        not_below raw,
        same quanta,
        order,
        least,
        room,
        not_below span,
      )

  -- What one round finds, if anything.
  abbrev IsFound : Expected → Option IndexEntry → Type 0
  IsFound x none = Unit {0}
  IsFound x (some e) = IsNext x e

  abbrev IsAccepted : Expected → Option BlockHeader → Type 0
  IsAccepted x none = Unit {0}
  IsAccepted x (some b) = IsNext x (entry_at x.cursor b)

  accept_block-IsAccepted :
      (x : Expected) (r : Result BlockHeader) → IsAccepted x (accept_block v h limit x r)
  unfolding accept_block
  accept_block-IsAccepted x (fails c) = tt
  accept_block-IsAccepted x (returns b) =
      elim (Bool-cases (
        breaks_chain v h limit x b
        || not (span_is v (block_header_encoded_size + b.stored_size) b.frame_span))) [
          | inl bad ↦ rw bad tt
          | inr good ↦ rw good (
              let (continues, spans) = neither good in
              accepted-IsNext x b continues (positive spans))
        ]

  -- The entries follow each other up to the end, which is within the limit, and the scan has gone on
  -- until no further header fits unless it stopped on corruption.
  abbrev pub IsScan : Expected → Scanned → Type 0
  IsScan x r =
      IsChain v wrapping_suc x.sequence x.cursor r.entries r.data_end
      × (r.data_end ≤ limit)
      × ((r.stopped_on_corruption ≡ false) → limit < r.data_end + block_header_encoded_size)

  module _ {S : Type 0} (dev : Device S) where
    scan_payload-Ends :
        (x : Expected) (found : Option BlockHeader) (s : S)
        → IsAccepted x found
        → Ends (IsFound x) (scan_payload dev v h x.cursor found s)
    unfolding scan_payload ◌>>=◌ give
    scan_payload-Ends x none s a = well tt
    scan_payload-Ends x (some b) s a =
        then-Ends
          (dev.read (add64 (add64 (partition_base v h.slot) x.cursor) block_header_encoded_size)
            b.stored_size s)
          (λ payload s1. elim (Bool-cases (crc32c payload == b.payload_crc)) [
            | inl intact ↦ rw intact (well {a = some (entry_at x.cursor b)} a)
            | inr damaged ↦ rw damaged (well {a = none} tt)
          ])

    scan_block-Ends : (x : Expected) (s : S) → Ends (IsFound x) (scan_block dev v h limit x s)
    unfolding scan_block ◌>>=◌
    scan_block-Ends x s =
        then-Ends (dev.read (add64 (partition_base v h.slot) x.cursor) block_header_encoded_size s)
          (λ header_bytes s1.
            scan_payload-Ends x _ s1 (accept_block-IsAccepted x (decode_block_header header_bytes)))

    put_first-IsScan :
        (x : Expected) (e : IndexEntry) (rest : Scanned)
        → x.cursor ≤ limit
        → limit < 2 ^ 64
        → IsNext x e
        → IsScan (after_entry x e) rest
        → IsScan x (put_first e rest)
    put_first-IsScan x e rest c small n r =
        let (offset, sequence, count, raw, quanta, order, least, long, span) = n in
        let (chain, within, complete) = r in
        let room = sub64_exact limit x.cursor c small in
        let next_ = add64_exact x.cursor e.frame_span (omega (arith, span, room, c, small)) in
        let chain' = rw next_ at chain in
        ((offset, sequence, count, raw, quanta, order, least, long, chain'), within, complete)

    scan_on-Ends :
        limit + block_header_encoded_size < 2 ^ 64
        → (x : Expected) (found : Option IndexEntry) (next : IndexEntry → Reads S Scanned) (s : S)
        → x.cursor ≤ limit
        → IsFound x found
        → ((e : IndexEntry) (s' : S) → IsNext x e → Ends (IsScan (after_entry x e)) (next e s'))
        → Ends (IsScan x) (scan_on dev v x found next s)
    unfolding scan_on ◌>>=◌ give
    scan_on-Ends small x none next s c n k = well (refl, c, λ calm. absurd cc)
    scan_on-Ends small x (some e) next s c n k =
        after-Ends (k e s n)
          (λ rest s1 r. well (put_first-IsScan x e rest c (omega (arith, small)) n r))

    scan_loop-Ends :
        limit + block_header_encoded_size < 2 ^ 64
        → (rounds : ℕ) (x : Expected) (s : S) → x.cursor ≤ limit
        → limit < x.cursor + block_header_encoded_size * (rounds + 1)
        → Ends (IsScan x) (scan_loop dev v rounds h limit x s)
    unfolding scan_loop ◌>>=◌ give
    scan_loop-Ends small zero x s c enough = well (refl, c, λ calm. omega (arith, enough))
    scan_loop-Ends small (suc rounds) x s c enough =
        let here = add64_exact x.cursor block_header_encoded_size (omega (arith, c, small)) in
        elim (Bool-cases (ltb limit (add64 x.cursor block_header_encoded_size))) [
          | inl full ↦
              rw full (well (refl, c, λ calm. let full' = rw here at full in ltb→lt limit _ full'))
          | inr room ↦ rw room (
              after-Ends (scan_block-Ends x s) (λ found s1 n.
                scan_on-Ends small x found _ s1 c n (λ e s2 next_.
                  let span = next_.8 in
                  let fits = sub64_exact limit x.cursor c (omega (arith, small)) in
                  let here' =
                    add64_exact x.cursor e.frame_span (omega (arith, span, fits, c, small)) in
                  scan_loop-Ends small rounds (after_entry x e) s2
                    (omega (arith, here', span, fits, c)) (omega (arith, here', next_.6, enough)))))
        ]

    scan_partition-Ends :
        index_begin v < 2 ^ 63
        → (scan_limit : ℕ) (s : S) → (limit ≡ scan_end dev v scan_limit)
        → Ends (IsScan at_start) (scan_partition dev v h scan_limit s)
    unfolding scan_partition ◌>>=◌ ◌>>◌ lift
    scan_partition-Ends small scan_limit s e = rw (← e) (
        after-Ends
          (reject-Ends (ltb limit partition_header_region_size || ltb (index_begin v) limit)
            ErrorCode.corrupt)
          (λ u s1 within.
            let (first, last) = neither within in
            let from = not_below first in
            let to = not_below last in
            scan_loop-Ends (omega (arith, to, small)) (limit / block_header_encoded_size) at_start
              s1 from (omega (arith, from))))

-- If a scan returns, then its entries are frames side by side from the start of the data, numbered from
-- 0 with a counter of 32 bits, each with a record at least, with times in order and long enough for
-- its frame; the end that it reports is where the last one ends, within the limit; and unless it
-- reports corruption no further block header fits before the limit. The data region has to end below
-- 2 ^ 63.
pub scan_partition-IsScan :
    {S : Type 0} (dev : Device S) (v : VolumeHeader) (h : PartitionHeader) (scan_limit : ℕ) (s : S)
    (scanned : Scanned)
    → index_begin v < 2 ^ 63
    → ((scan_partition dev v h scan_limit s).0 ≡ returns scanned)
    → IsScan v h (scan_end dev v scan_limit) at_start scanned
scan_partition-IsScan dev v h scan_limit s scanned small e =
    value-Ends (scan_partition-Ends v h (scan_end dev v scan_limit) dev small scan_limit s refl) e

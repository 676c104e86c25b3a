-- ===== src/RingStore/Opener/Recover.antt =====
-- `open`: the partitions and the damaged slots that it finds on the media.
use tfdb.Prelude.{
  ℕ, zero, suc, ◌+◌, Bool, true, false, not, ◌&&◌, ◌||◌, List, [], ◌∷◌, ◌++◌, ltb, ◌==◌,
  if◌then◌else◌,
}
use tfdb.Status.{ErrorCode, Result, returns, fails}
use tfdb.Format.Volume.{VolumeHeader}
use tfdb.Format.Partition.{PartitionHeader}
use tfdb.Format.Footer.{PartitionFooter}
use tfdb.Codec.{CompressionCodec}
use tfdb.RingStore.State.{Device, PartitionState}
use tfdb.RingStore.Rotate.{new_partition, sort_by_generation}
use tfdb.RingStore.Reader.Reads.{Reads, ◌>>=◌, ◌>>◌, give, reject}
use tfdb.RingStore.Reader.Slots.{read_partition_header, read_footer}
use tfdb.RingStore.Reader.Scan.{Scanned, scan_partition}
use tfdb.RingStore.Reader.Index.{summarize}
use tfdb.RingStore.Reader.Block.{is_operational}
use tfdb.RingStore.Opener.Headers.{attempt}
use tfdb.RingStore.Opener.Damage.{assess_slot}
use tfdb.RingStore.Opener.Strict.{decode_all, verify_sealed}

-- What the loop over the slots has found.
pub record Recovery : Type 0 where
  pub generations : List ℕ
  pub recovered : List PartitionState
  pub damaged_slots : List ℕ

abbrev pub nothing_found : Recovery
nothing_found = record { generations = []; recovered = []; damaged_slots = [] }

-- `std::set::insert` finds the generation.
unfoldable pub is_seen : ℕ → List ℕ → Bool
is_seen g [] = false
is_seen g (n ∷ ns) = n == g || is_seen g ns

abbrev pub sealed_state : PartitionHeader → PartitionFooter → PartitionState
sealed_state h f = record (new_partition h) {
  sealed = true;
  footer = f;
  data_end = f.data_end;
  aggregate_flags = f.flags;
  block_count = f.block_count;
  has_time = not (f.block_count == 0);
  min_time_ns = f.min_time_ns;
  max_time_ns = f.max_time_ns;
}

unfoldable pub scanned_state : PartitionHeader → Scanned → PartitionState
unfolding summarize
scanned_state h scanned =
    summarize
      (record (new_partition h) { active_index = scanned.entries; data_end = scanned.data_end })

unfoldable pub newest_seen : List PartitionState → ℕ → ℕ
newest_seen [] newest = newest
newest_seen (p ∷ ps) newest =
    newest_seen ps (if ltb newest p.header.generation then p.header.generation else newest)

abbrev pub without_index : PartitionState → PartitionState
without_index p = record p { active_index = [] }

-- The indexes of the partitions without a footer are dropped, that of the newest excepted.
unfoldable pub drop_indexes : ℕ → List PartitionState → List PartitionState
drop_indexes newest [] = []
drop_indexes newest (p ∷ ps) =
    (if not p.sealed && not (p.header.generation == newest) then without_index p else p)
    ∷ drop_indexes newest ps

-- `push_back`, and the loops after it.
unfoldable pub add_partition : PartitionState → Recovery → Recovery
unfolding newest_seen drop_indexes
add_partition p r =
    let found = r.recovered ++ p ∷ [] in
    record r { recovered = drop_indexes (newest_seen found 0) found }

abbrev pub add_damaged : Bool → ℕ → Recovery → Recovery
add_damaged damaged slot r =
    if damaged then record r { damaged_slots = r.damaged_slots ++ slot ∷ [] } else r

module _ {S : Type 0} (dev : Device S) (v : VolumeHeader) (codecs : List CompressionCodec)
    (verify : Bool) where
  -- The state of a partition, from its footer or from a scan.
  unfoldable pub recover_state : PartitionHeader → Result PartitionFooter → Reads S PartitionState
  unfolding verify_sealed scan_partition scanned_state decode_all
  recover_state h (returns f) = do
    let p = sealed_state h f
    if verify then verify_sealed dev v codecs p else give tt
    give p
  recover_state h (fails code) = do
    reject (is_operational code) code
    scanned ← scan_partition dev v h 0
    let p = scanned_state h scanned
    if verify then decode_all dev v codecs p p.active_index else give tt
    give p

  unfoldable pub recover_slot : ℕ → Recovery → Result PartitionHeader → Reads S Recovery
  unfolding assess_slot is_seen read_footer recover_state add_partition
  recover_slot slot r (fails code) = do
    damaged ← assess_slot dev v verify slot code
    give (add_damaged damaged slot r)
  recover_slot slot r (returns h) = do
    reject (h.generation == 0) ErrorCode.corrupt
    reject (is_seen h.generation r.generations) ErrorCode.corrupt
    footer ← attempt (read_footer dev v h)
    p ← recover_state h footer
    give (add_partition p (record r { generations = h.generation ∷ r.generations }))

  -- The loop over the slots that are left, from `slot`.
  unfoldable pub recover_slots : ℕ → ℕ → Recovery → Reads S Recovery
  unfolding recover_slot read_partition_header
  recover_slots zero slot r = give r
  recover_slots (suc left) slot r = do
    header ← attempt (read_partition_header dev v codecs slot)
    r' ← recover_slot slot r header
    recover_slots left (slot + 1) r'

-- Every partition but the last loses the index of an unsealed one.
unfoldable pub trim_history : List PartitionState → List PartitionState
trim_history [] = []
trim_history (p ∷ []) = p ∷ []
trim_history (p ∷ q ∷ ps) = (if p.sealed then p else without_index p) ∷ trim_history (q ∷ ps)

-- `std::sort`, and the loop after it.
unfoldable pub arrange : List PartitionState → List PartitionState
unfolding sort_by_generation trim_history
arrange ps = trim_history (sort_by_generation ps)

unfoldable pub last_partition : PartitionState → List PartitionState → PartitionState
last_partition p [] = p
last_partition p (q ∷ ps) = last_partition q ps

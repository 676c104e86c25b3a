-- ===== src/Storage/Memory/Crash.antt =====
-- The crashes of `MemoryStorage`, its corruption, and the calls that only set it up.
use tfdb.Prelude.{
  ℕ, bit_xor, Bool, ◌||◌, Option, none, some, List, [], ◌∷◌, ◌++◌, ltb, leb, ◌==◌, if◌then◌else◌,
  length, take, drop, get_or, set,
}
use tfdb.Status.{ErrorCode, Status, ok, error, Result, returns, fails, ◌>>=◌, ◌>>◌, reject_if}
use tfdb.Bytes.{store}
use tfdb.RingStore.State.{add64, sub64}
use tfdb.Storage.Memory.{MemoryStorage, FaultRule, WriteFragment, DirtyWrite, no_counters}

unfoldable pub add_fault : FaultRule → MemoryStorage → MemoryStorage
add_fault rule_ m = record m { faults = m.faults ++ rule_ ∷ [] }

unfoldable pub clear_faults : MemoryStorage → MemoryStorage
clear_faults m = record m { faults = [] }

unfoldable pub reset_counters : MemoryStorage → MemoryStorage
reset_counters m = record m { counters_ = no_counters; events_ = []; dirty_writes = [] }

unfoldable pub crash_discard_volatile : MemoryStorage → MemoryStorage
crash_discard_volatile m = record m { volatile_ = m.durable; dirty_writes = [] }

-- The writes over an image, in their order.
unfoldable pub copy_writes : List DirtyWrite → List ℕ → List ℕ
copy_writes [] image = image
copy_writes (w ∷ ws) image = copy_writes ws (store image w.offset w.bytes)

unfoldable pub crash_persist_all_dirty : MemoryStorage → MemoryStorage
unfolding copy_writes
crash_persist_all_dirty m =
    let image = copy_writes m.dirty_writes m.durable in
    record m { durable = image; volatile_ = image; dirty_writes = [] }

unfoldable pub find_write : ℕ → List DirtyWrite → Option DirtyWrite
find_write call [] = none
find_write call (w ∷ ws) = if w.call == call then some w else find_write call ws

abbrev pub bad_fragment : WriteFragment → DirtyWrite → Bool
bad_fragment f w =
    ltb (length w.bytes) f.offset_in_write
    || ltb (sub64 (length w.bytes) f.offset_in_write) f.length_

abbrev pub outside_durable : WriteFragment → DirtyWrite → List ℕ → Bool
outside_durable f w image =
    let destination = add64 w.offset f.offset_in_write in
    ltb (length image) destination || ltb (sub64 (length image) destination) f.length_

-- The selected part of the write of a fragment, as a write of its own.
abbrev pub piece : WriteFragment → DirtyWrite → DirtyWrite
piece f w = record {
  call = w.call;
  offset = add64 w.offset f.offset_in_write;
  bytes = take f.length_ (drop f.offset_in_write w.bytes);
}

abbrev pub select_fragment : WriteFragment → List ℕ → Option DirtyWrite → Result DirtyWrite
select_fragment f image none = fails ErrorCode.invalid_argument
select_fragment f image (some w) = do
  reject_if (bad_fragment f w) ErrorCode.invalid_argument
  reject_if (outside_durable f w image) ErrorCode.out_of_range
  returns (piece f w)

-- The first loop of `crash_materialize`: what the second one copies.
unfoldable pub select_fragments :
    List WriteFragment → List DirtyWrite → List ℕ → Result (List DirtyWrite)
unfolding find_write
select_fragments [] writes image = returns []
select_fragments (f ∷ fs) writes image = do
  w ← select_fragment f image (find_write f.write_call writes)
  ws ← select_fragments fs writes image
  returns (w ∷ ws)

abbrev pub materialize : Result (List DirtyWrite) → MemoryStorage → Status × MemoryStorage
materialize (fails code) m = (error code, m)
materialize (returns pieces) m =
    let image = copy_writes pieces m.durable in
    (ok, record m { durable = image; volatile_ = image; dirty_writes = [] })

unfoldable pub crash_materialize : List WriteFragment → MemoryStorage → Status × MemoryStorage
unfolding select_fragments copy_writes
crash_materialize fragments m = materialize (select_fragments fragments m.dirty_writes m.durable) m

abbrev pub flip : ℕ → ℕ → List ℕ → List ℕ
flip offset xor_mask image = set image offset (bit_xor (get_or image offset 0) xor_mask)

unfoldable pub corrupt_durable : ℕ → ℕ → MemoryStorage → Status × MemoryStorage
corrupt_durable offset xor_mask m =
    if leb (length m.durable) offset
    then (error ErrorCode.out_of_range, m)
    else (ok, record m { durable = flip offset xor_mask m.durable })

unfoldable pub corrupt_volatile : ℕ → ℕ → MemoryStorage → Status × MemoryStorage
corrupt_volatile offset xor_mask m =
    if leb (length m.volatile_) offset
    then (error ErrorCode.out_of_range, m)
    else (ok, record m { volatile_ = flip offset xor_mask m.volatile_ })

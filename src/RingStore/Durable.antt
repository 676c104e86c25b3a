-- ===== src/RingStore/Durable.antt =====
-- What a checkpoint and a rotation leave on the medium.
use tfdb.Prelude.{◌≡◌, false, not, []}
use tfdb.Status.{ErrorCode, Status, ok, error, is_ok}
use tfdb.Format.Partition.{PartitionOptions}
use tfdb.RingStore.Outcome.{Outcome, stopped, if-Outcome, weaken-Outcome, ok-Outcome}
use tfdb.RingStore.State.{Device, Impl}
use tfdb.RingStore.Medium.{Medium}
use tfdb.RingStore.Consistent.{IsConsistent}
use tfdb.RingStore.Append.{admitted, checkpoint, checkpoint_admitted, rotate, rotate_admitted}
use tfdb.RingStore.Invariant.{rotate-settled}
use tfdb.RingStore.Flushed.{IsStill, IsSafe}
use tfdb.RingStore.Safety.{covered, checkpoint_admitted-Still, rotate_admitted-Still}

module _ {S : Type 0} (dev : Device S) (m : Medium dev) where
  abbrev Anything : ErrorCode → Impl S → Type 0
  Anything c s = Unit {0}

  -- The tests before an operation, of which an error of the latched fault is one.
  entered-Outcome :
      {Good : Impl S → Type 0} (f : Impl S → Status × Impl S) (s : Impl S)
      → IsConsistent s
      → ((s.faulted ≡ false) → Outcome Good Anything (f s))
      → Outcome Good Anything (admitted dev f s)
  unfolding admitted
  entered-Outcome {Good = Good} f s h k =
      if-Outcome (not s.writable) (λ _. stopped tt)
        (λ _.
          if-Outcome s.closed (λ _. stopped tt)
            (λ _.
              if-Outcome s.faulted (λ faulted. latched s.fault_status (h.1 faulted))
                (λ sane. k sane)))
    where
      latched : (status : Status) → (is_ok status ≡ false) → Outcome Good Anything (status, s)
      latched ok e = absurd cc
      latched (error c) e = stopped tt

  pub checkpoint-Still :
      (s : Impl S)
      → IsConsistent s
      → IsSafe dev m s
      → Outcome (IsStill dev m) Anything (checkpoint dev s)
  unfolding checkpoint
  checkpoint-Still s h safe = entered-Outcome (checkpoint_admitted dev) s h (λ sane.
      weaken-Outcome (checkpoint_admitted-Still dev m s (covered dev m s safe sane)) (λ a ha. ha)
        (λ c a _. tt))

  rotate-Still :
      (next : PartitionOptions) (s : Impl S)
      → IsConsistent s
      → IsSafe dev m s
      → Outcome (IsStill dev m) Anything (rotate dev next s)
  unfolding rotate
  rotate-Still next s h safe = entered-Outcome (rotate_admitted dev next) s h (λ sane.
      weaken-Outcome (rotate_admitted-Still dev m next s (covered dev m s safe sane)) (λ a ha. ha)
        (λ c a _. tt))

  -- After a rotation that returns ok, of a consistent store that is faulted or dirty or else has a
  -- flushed backend, the backend is flushed, the builder is empty, the store is not dirty, and the
  -- durable records and blocks that it counts are those accepted before and published.
  pub rotate-durable :
      (next : PartitionOptions) (s : Impl S)
      → IsConsistent s
      → IsSafe dev m s
      → ((rotate dev next s).0 ≡ ok)
      → m.IsFlushed (rotate dev next s).1.storage
        × ((rotate dev next s).1.builder ≡ [])
        × ((rotate dev next s).1.dirty ≡ false)
        × ((rotate dev next s).1.have_undurable_records ≡ false)
        × ((rotate dev next s).1.metrics.durable_records ≡ s.metrics.accepted_records)
        × ((rotate dev next s).1.metrics.durable_blocks
            ≡ (rotate dev next s).1.metrics.published_blocks)
  rotate-durable next s h safe e =
      let (emptied, clean, none_left, records, blocks) = rotate-settled dev next s h e in
      (ok-Outcome (rotate-Still next s h safe) e, emptied, clean, none_left, records, blocks)

-- ===== src/RingStore/Consistent.antt =====
-- The invariants of the writer's counters and of the atomics that `health()` reads.
use tfdb.Prelude.{[], ℕ, ◌≡◌, Bool, true, false, not, ◌||◌, ◌==◌, length}
use tfdb.Status.{ErrorCode, error, is_ok}
use tfdb.RingStore.State.{Impl}

module _ {S : Type 0} where
  -- Accepted records wait in the builder, or in blocks that no flush has covered.
  abbrev pub pending : Impl S → Bool
  pending s = not (length s.builder == 0) || s.dirty

  -- Exactly while records are pending one of them is counted as undurable, and when none is pending
  -- the durable counters have reached the others.
  abbrev pub IsAccounted : Impl S → Type 0
  IsAccounted s =
      (s.have_undurable_records ≡ pending s)
      × ((pending s ≡ false)
          → (s.metrics.durable_records ≡ s.metrics.accepted_records)
            × (s.metrics.durable_blocks ≡ s.metrics.published_blocks))

  -- The fault that is latched is an error.
  abbrev pub IsLatched : Impl S → Type 0
  IsLatched s = (s.faulted ≡ true) → is_ok s.fault_status ≡ false

  -- What `health()` reads without the mutex is what the state under the mutex says, but for the time of
  -- the oldest record, which is a reading of the clock of its own.
  abbrev pub IsMirrored : Impl S → Type 0
  IsMirrored s =
      (s.health.health_closed ≡ s.closed)
      × (s.health.health_faulted ≡ s.faulted)
      × (s.health.health_fault_code ≡ s.fault_status)
      × (s.health.health_have_undurable ≡ s.have_undurable_records)
      × (s.health.health_last_sync_ns ≡ s.metrics.last_sync_duration_ns)
      × (s.health.health_max_sync_ns ≡ s.metrics.max_sync_duration_ns)
      × (s.health.health_sync_calls ≡ s.metrics.sync_calls)
      × (s.health.health_sync_errors ≡ s.metrics.sync_errors)
      × (s.health.health_checkpoints ≡ s.metrics.checkpoints)

  abbrev pub IsConsistent : Impl S → Type 0
  IsConsistent s = IsAccounted s × IsLatched s × IsMirrored s

  -- The builder is empty, and `n` records were accepted.
  abbrev pub IsDrained : ℕ → Impl S → Type 0
  IsDrained n s = IsConsistent s × (s.builder ≡ []) × (s.metrics.accepted_records ≡ n)

  -- ... and all of them are durable.
  abbrev pub IsDurable : ℕ → Impl S → Type 0
  IsDurable n s = IsDrained n s × (s.dirty ≡ false)

  -- An error that the store keeps, and returns from then on.
  abbrev pub IsFaulted : ErrorCode → Impl S → Type 0
  IsFaulted c s = IsConsistent s × (s.faulted ≡ true) × (s.fault_status ≡ error c)

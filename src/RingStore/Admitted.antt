-- ===== src/RingStore/Admitted.antt =====
-- The three tests that start each operation of the writer, and a checkpoint's steps after them.
use tfdb.Prelude.{ℕ, ◌≡◌, false, not}
use tfdb.Status.{Status, ok, error, is_ok}
use tfdb.RingStore.Outcome.{Outcome, returned, stopped, if-Outcome}
use tfdb.RingStore.State.{Device, Impl}
use tfdb.RingStore.Consistent.{IsConsistent, IsDrained, IsDurable}
use tfdb.RingStore.Emit.{emit_builder}
use tfdb.RingStore.Append.{admitted, sync_if_dirty}
use tfdb.RingStore.Effects.{sync_media-IsDrained}
use tfdb.RingStore.Emitted.{emit_builder-Outcome, Anyway, forget}

module _ {S : Type 0} (dev : Device S) where
  pub latched-Outcome :
      {Good : Impl S → Type 0} (status : Status) (s : Impl S)
      → (is_ok status ≡ false)
      → IsConsistent s
      → Outcome Good (Anyway dev) (status, s)
  latched-Outcome ok s e h = absurd cc
  latched-Outcome (error c) s e h = stopped h

  pub admitted-Outcome :
      {Good : Impl S → Type 0} (f : Impl S → Status × Impl S) (s : Impl S)
      → IsConsistent s
      → (IsConsistent s → Outcome Good (Anyway dev) (f s))
      → Outcome Good (Anyway dev) (admitted dev f s)
  unfolding admitted
  admitted-Outcome f s h k =
      if-Outcome (not s.writable) (λ _. stopped h)
        (λ _.
          if-Outcome s.closed (λ _. stopped h)
            (λ _.
              if-Outcome s.faulted (λ faulted. latched-Outcome s.fault_status s (h.1 faulted) h)
                (λ _. k h)))

  pub emptied-Outcome :
      (s : Impl S)
      → IsConsistent s
      → Outcome (IsDrained s.metrics.accepted_records) (Anyway dev) (emit_builder dev s)
  emptied-Outcome s h = forget dev (emit_builder-Outcome dev s h)

  pub synced-Outcome :
      (n : ℕ) (s : Impl S)
      → IsDrained n s
      → Outcome (IsDurable n) (Anyway dev) (sync_if_dirty dev s)
  synced-Outcome n s h =
      if-Outcome s.dirty (λ _. forget dev (sync_media-IsDrained dev n s h))
        (λ clean. returned (h, clean))

-- ===== src/RingStore/Invariant.antt =====
-- The calls of `RingStore` and the invariants; what the calls make durable.
use tfdb.Prelude.{
  ℕ, ◌≡◌, refl, ◌∙◌, true, false, not, ◌||◌, none, some, List, [], ◌∷◌, arith, ◌==◌, ℤ,
}
use tfdb.Status.{Status, ok}
use tfdb.RingStore.Outcome.{
  Outcome, returned, stopped, chain-Outcome, if-Outcome, weaken-Outcome, status-Outcome, ok-Outcome,
}
use tfdb.Bytes.{ByteView}
use tfdb.Format.Partition.{PartitionOptions}
use tfdb.RingStore.State.{Device, Impl, add64}
use tfdb.RingStore.Consistent.{pending, IsConsistent, IsDrained, IsDurable}
use tfdb.RingStore.Emit.{emit_builder}
use tfdb.RingStore.Append.{
  AppendContract, append, append_checked, publish, checkpoint, close, rotate,
  set_next_partition_options, checkpoint_admitted, rotate_admitted, set_next_admitted, mark_closed,
}
use tfdb.RingStore.Run.{
  Call, run, run_all, call_append, call_append_checked, call_publish, call_checkpoint, call_close,
  call_rotate, call_set_next,
}
use tfdb.RingStore.Emitted.{Anyway}
use tfdb.RingStore.Rotated.{rotate_internal-Outcome, Counts}
use tfdb.RingStore.Admitted.{latched-Outcome, admitted-Outcome, emptied-Outcome, synced-Outcome}
use tfdb.RingStore.Accepted.{append_impl-Outcome}

anyhow :
    {S : Type 0} {Good : Impl S → Type 0} {m : Status × Impl S}
    → Outcome Good (λ _ s. IsConsistent s) m
    → ((s : Impl S) → Good s → IsConsistent s)
    → IsConsistent m.1
anyhow (returned h) k = k _ h
anyhow (stopped h) k = h

module _ {S : Type 0} (dev : Device S) where
  pub settled :
      (n : ℕ) (s : Impl S)
      → IsDurable n s
      → (s.builder ≡ [])
        × (s.dirty ≡ false)
        × (s.have_undurable_records ≡ false)
        × (s.metrics.durable_records ≡ n)
        × (s.metrics.durable_blocks ≡ s.metrics.published_blocks)
  settled n s ((((u, d), l, m), b, e), z) =
      let idle : pending s ≡ false = rw (b, z) refl in (b, z, u ∙ idle, (d idle).0 ∙ e, (d idle).1)

  pub checkpoint-Outcome :
      (s : Impl S)
      → IsConsistent s
      → Outcome (IsDurable s.metrics.accepted_records) (Anyway dev) (checkpoint dev s)
  unfolding checkpoint
  checkpoint-Outcome s h = admitted-Outcome dev (checkpoint_admitted dev) s h (λ h'.
      chain-Outcome (emptied-Outcome dev s h')
        (λ a ha. synced-Outcome dev s.metrics.accepted_records a ha))

  emptied_from-Outcome :
      (n : ℕ) (s : Impl S)
      → Counts dev n s
      → Outcome (IsDrained n) (Anyway dev) (emit_builder dev s)
  emptied_from-Outcome n s h =
      weaken-Outcome (emptied-Outcome dev s h.0) (λ b hb. (hb.0, hb.1, hb.2 ∙ h.1)) (λ c b hb. hb)

  rotate-Outcome :
      (next : PartitionOptions) (s : Impl S)
      → IsConsistent s
      → Outcome (IsDurable s.metrics.accepted_records) (Anyway dev) (rotate dev next s)
  unfolding rotate
  rotate-Outcome next s h =
      let n = s.metrics.accepted_records in
      admitted-Outcome dev (rotate_admitted dev next) s h (λ h'.
        chain-Outcome
          (chain-Outcome {Between = Counts dev n} (status-Outcome _ (h', refl) (λ _. h'))
            (λ a ha. emptied_from-Outcome n a ha))
          (λ b hb. rotate_internal-Outcome dev n next (record b { next_options = next }) hb))

  closed-IsConsistent : (s : Impl S) → IsConsistent s → IsConsistent (mark_closed dev s)
  closed-IsConsistent s (a, l, (m1, m2, m3, m4, m6, m7, m8, m9, m10)) =
      (a, l, (refl, m2, m3, m4, m6, m7, m8, m9, m10))

  closed-IsDurable : (n : ℕ) (s : Impl S) → IsDurable n s → IsDurable n (mark_closed dev s)
  closed-IsDurable n s ((h, b, e), z) = ((closed-IsConsistent s h, b, e), z)

  -- A store that was closed, or that is read-only, is closed without a flush.
  abbrev IsClosed : Impl S → Impl S → Type 0
  IsClosed s s' =
      IsConsistent s'
      × ((s.closed ≡ false) → (s.writable ≡ true) → IsDurable s.metrics.accepted_records s')

  close-Outcome : (s : Impl S) → IsConsistent s → Outcome (IsClosed s) (Anyway dev) (close dev s)
  unfolding close
  close-Outcome s h =
      let n = s.metrics.accepted_records in
      if-Outcome s.closed (λ e. returned (h, λ f. absurd cc))
        (λ _.
          if-Outcome (not s.writable)
            (λ e. returned (closed-IsConsistent s h, λ _ f. absurd (ground arith)))
            (λ w.
              if-Outcome s.faulted (λ faulted. latched-Outcome dev s.fault_status s (h.1 faulted) h)
                (λ _.
                  chain-Outcome
                    (chain-Outcome (emptied-Outcome dev s h) (λ a ha. synced-Outcome dev n a ha))
                    (λ b hb.
                      returned ((closed-IsDurable n b hb).0.0, λ _ _. closed-IsDurable n b hb)))))

  set_next-Outcome :
      (options : PartitionOptions) (s : Impl S)
      → IsConsistent s
      → Outcome IsConsistent (Anyway dev) (set_next_partition_options dev options s)
  unfolding set_next_partition_options
  set_next-Outcome options s h =
      admitted-Outcome dev (set_next_admitted dev options) s h
        (λ h'. chain-Outcome (status-Outcome _ h' (λ _. h')) (λ a ha. returned ha))

  pub append_checked-Outcome :
      (view : ByteView) (time : ℤ) (expected : AppendContract) (flags : ℕ) (s : Impl S)
      → IsConsistent s
      → Outcome
          (Counts dev (add64 s.metrics.accepted_records 1))
          (Anyway dev)
          (append_checked dev view time expected flags s)
  unfolding append_checked
  append_checked-Outcome view time expected flags s h =
      if-Outcome
        (expected.record_format_id == 0
          || expected.record_format_version == 0
          || expected.time_domain_id == 0)
        (λ _. stopped h) (λ _. append_impl-Outcome dev view time flags (some expected) s h)

  publish-Outcome :
      (s : Impl S)
      → IsConsistent s
      → Outcome (IsDrained s.metrics.accepted_records) (Anyway dev) (publish dev s)
  unfolding publish
  publish-Outcome s h = admitted-Outcome dev (emit_builder dev) s h (λ h'. emptied-Outcome dev s h')

  -- Every call, whatever it returns, keeps the counters accounted for, the latched fault an error, and
  -- the atomics that `health()` reads equal to the state under the mutex, but for the time of the
  -- oldest record.
  pub run-IsConsistent :
      (call : Call) (s : Impl S) → IsConsistent s → IsConsistent (run dev call s).1
  unfolding run append
  run-IsConsistent (call_append view time flags) s h =
      anyhow (append_impl-Outcome dev view time flags none s h) (λ a ha. ha.0)
  run-IsConsistent (call_append_checked view time expected flags) s h =
      anyhow (append_checked-Outcome view time expected flags s h) (λ a ha. ha.0)
  run-IsConsistent call_publish s h = anyhow (publish-Outcome s h) (λ a ha. ha.0)
  run-IsConsistent call_checkpoint s h = anyhow (checkpoint-Outcome s h) (λ a ha. ha.0.0)
  run-IsConsistent call_close s h = anyhow (close-Outcome s h) (λ a ha. ha.0)
  run-IsConsistent (call_rotate next) s h = anyhow (rotate-Outcome next s h) (λ a ha. ha.0.0)
  run-IsConsistent (call_set_next options) s h = anyhow (set_next-Outcome options s h) (λ a ha. ha)

  -- A store whose counters and atomics are consistent, the time of the oldest record apart, is
  -- consistent after every sequence of calls, whatever each of them returns.
  pub run_all-IsConsistent :
      (calls : List Call) (s : Impl S) → IsConsistent s → IsConsistent (run_all dev calls s)
  unfolding run_all
  run_all-IsConsistent [] s h = h
  run_all-IsConsistent (call ∷ calls) s h =
      run_all-IsConsistent calls (run dev call s).1 (run-IsConsistent call s h)

  -- The counters after a checkpoint, and after a rotation.
  pub checkpoint-settled :
      (s : Impl S)
      → IsConsistent s
      → ((checkpoint dev s).0 ≡ ok)
      → ((checkpoint dev s).1.builder ≡ [])
        × ((checkpoint dev s).1.dirty ≡ false)
        × ((checkpoint dev s).1.have_undurable_records ≡ false)
        × ((checkpoint dev s).1.metrics.durable_records ≡ s.metrics.accepted_records)
        × ((checkpoint dev s).1.metrics.durable_blocks
            ≡ (checkpoint dev s).1.metrics.published_blocks)
  checkpoint-settled s h e =
      settled s.metrics.accepted_records (checkpoint dev s).1
        (ok-Outcome (checkpoint-Outcome s h) e)

  pub rotate-settled :
      (next : PartitionOptions) (s : Impl S)
      → IsConsistent s
      → ((rotate dev next s).0 ≡ ok)
      → ((rotate dev next s).1.builder ≡ [])
        × ((rotate dev next s).1.dirty ≡ false)
        × ((rotate dev next s).1.have_undurable_records ≡ false)
        × ((rotate dev next s).1.metrics.durable_records ≡ s.metrics.accepted_records)
        × ((rotate dev next s).1.metrics.durable_blocks
            ≡ (rotate dev next s).1.metrics.published_blocks)
  rotate-settled next s h e =
      settled s.metrics.accepted_records (rotate dev next s).1
        (ok-Outcome (rotate-Outcome next s h) e)

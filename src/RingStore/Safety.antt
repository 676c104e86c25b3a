-- ===== src/RingStore/Safety.antt =====
-- The calls of `RingStore` and the flushes.
use tfdb.Prelude.{
  ℕ, ◌≡◌, ◌⊎◌, inl, inr, Bool, true, false, not, ◌||◌, Option, List, [], ◌∷◌, ltb, ◌==◌, Bool-cases,
  length, ℤ, some, none,
}
use tfdb.Status.{Status}
use tfdb.Bytes.{ByteView, empty, valid, contents, size}
use tfdb.Format.Partition.{PartitionOptions}
use tfdb.RingStore.Outcome.{
  Outcome, returned, stopped, chain-Outcome, if-Outcome, option-Outcome, status-Outcome,
  weaken-Outcome, always-Outcome,
}
use tfdb.RingStore.State.{Device, Impl, active, sub64}
use tfdb.RingStore.Append.{
  AppendContract, append, append_checked, append_impl, append_record, append_active, accept_record,
  note_undurable, buffer_record, count_anomaly, breaks_contract, append_admitted, admitted, publish,
  sync_if_dirty, checkpoint, checkpoint_admitted, close, rotate, rotate_admitted,
  set_next_partition_options, set_next_admitted, is_anomaly,
}
use tfdb.RingStore.Emit.{emit_builder}
use tfdb.RingStore.Run.{
  Call, run, run_all, call_append, call_append_checked, call_publish, call_checkpoint, call_close,
  call_rotate, call_set_next,
}
use tfdb.RingStore.Medium.{Medium}
use tfdb.RingStore.Flushed.{
  IsStill, IsCovered, IsSafe, Safely, sync_media-Still, rotate_internal-Still,
  ensure_empty_builder_capacity-Covered, emit_builder-Covered,
}

module _ {S : Type 0} (dev : Device S) (m : Medium dev) where
  noted-Covered : (s : Impl S) → IsCovered dev m s → IsCovered dev m (note_undurable dev s)
  unfolding note_undurable
  noted-Covered s h = elim (Bool-cases s.have_undurable_records) [
    | inl e ↦ rw e h
    | inr e ↦ rw e (ticked s h)
  ]
    where
      ticked :
          (s : Impl S)
          → IsCovered dev m s
          → (s.dirty ≡ true) ⊎ m.IsFlushed (dev.now (dev.now s.storage).1).1
      ticked s (inl dirty) = inl dirty
      ticked s (inr still) = inr (m.now-IsFlushed _ (m.now-IsFlushed _ still))

  counted-Covered :
      (anomaly : Bool) (s : Impl S)
      → IsCovered dev m s
      → IsCovered dev m (count_anomaly dev anomaly s)
  counted-Covered true s h = h
  counted-Covered false s h = h

  accepted-Covered :
      (options : PartitionOptions) (bs : List ℕ) (time : ℤ) (flags : ℕ) (s : Impl S)
      → IsCovered dev m s
      → IsCovered dev m (accept_record dev options bs time flags s)
  unfolding accept_record buffer_record
  accepted-Covered options bs time flags s h =
      let anomaly = is_anomaly s.have_last_time s.last_time time options in
      noted-Covered _ (counted-Covered anomaly s h)

  append_active-Covered :
      (expected : Option AppendContract) (bs : List ℕ) (time : ℤ) (flags : ℕ) (s : Impl S)
      → IsCovered dev m s
      → Outcome (IsCovered dev m) (Safely dev m) (append_active dev expected bs time flags s)
  unfolding append_active
  append_active-Covered expected bs time flags s h =
      option-Outcome (active s) (stopped (inr h)) (λ p _.
        if-Outcome (breaks_contract expected p.header.options) (λ _. stopped (inr h))
          (λ _. returned (accepted-Covered p.header.options bs time flags s h)))

  append_record-Covered :
      (expected : Option AppendContract) (bs : List ℕ) (time : ℤ) (flags : ℕ) (s : Impl S)
      → IsCovered dev m s
      → Outcome (IsCovered dev m) (Safely dev m) (append_record dev expected bs time flags s)
  unfolding append_record
  append_record-Covered expected bs time flags s h =
      chain-Outcome
        (chain-Outcome
          (if-Outcome (ltb (sub64 s.volume.max_block_payload (length s.builder)) (length bs))
            (λ _. emit_builder-Covered dev m s h) (λ _. returned h))
          (λ a ha. ensure_empty_builder_capacity-Covered dev m a ha))
        (λ b hb. append_active-Covered expected bs time flags b hb)

  pub covered : (s : Impl S) → IsSafe dev m s → (s.faulted ≡ false) → IsCovered dev m s
  covered s (inl faulted) sane = absurd cc
  covered s (inr h) sane = h

  -- The condition on every outcome.
  abbrev StaysSafe : Status × Impl S → Type 0
  StaysSafe r = Outcome (IsSafe dev m) (Safely dev m) r

  safe-Outcome :
      {Good : Impl S → Type 0} {r : Status × Impl S}
      → Outcome Good (Safely dev m) r
      → ((s : Impl S) → Good s → IsCovered dev m s)
      → StaysSafe r
  safe-Outcome o k = weaken-Outcome o (λ a ha. inr (k a ha)) (λ c a ha. ha)

  admitted-Safe :
      (f : Impl S → Status × Impl S) (s : Impl S)
      → IsSafe dev m s
      → (IsCovered dev m s → StaysSafe (f s))
      → StaysSafe (admitted dev f s)
  unfolding admitted
  admitted-Safe f s h k =
      if-Outcome (not s.writable) (λ _. stopped h)
        (λ _.
          if-Outcome s.closed (λ _. stopped h)
            (λ _.
              if-Outcome s.faulted (λ _. status-Outcome s.fault_status h (λ _. h))
                (λ sane. k (covered s h sane))))

  pub append_impl-Safe :
      (view : ByteView) (time : ℤ) (flags : ℕ) (expected : Option AppendContract) (s : Impl S)
      → IsSafe dev m s
      → StaysSafe (append_impl dev view time flags expected s)
  unfolding append_impl
  append_impl-Safe view time flags expected s h =
      admitted-Safe (append_admitted dev view time flags expected) s h (λ k.
        if-Outcome (empty view) (λ _. stopped (inr k))
          (λ _.
            if-Outcome (not (valid view)) (λ _. stopped (inr k))
              (λ _.
                if-Outcome (ltb s.volume.max_block_payload (size view)) (λ _. stopped (inr k))
                  (λ _.
                    safe-Outcome (append_record-Covered expected (contents view) time flags s k)
                      (λ a ha. ha)))))

  pub append_checked-Safe :
      (view : ByteView) (time : ℤ) (expected : AppendContract) (flags : ℕ) (s : Impl S)
      → IsSafe dev m s
      → StaysSafe (append_checked dev view time expected flags s)
  unfolding append_checked
  append_checked-Safe view time expected flags s h =
      if-Outcome
        (expected.record_format_id == 0
          || expected.record_format_version == 0
          || expected.time_domain_id == 0)
        (λ _. stopped h) (λ _. append_impl-Safe view time flags (some expected) s h)

  sync_if_dirty-Still :
      (s : Impl S)
      → IsCovered dev m s
      → Outcome (IsStill dev m) (Safely dev m) (sync_if_dirty dev s)
  sync_if_dirty-Still s h =
      if-Outcome s.dirty (λ _. sync_media-Still dev m true s) (λ clean. returned (still s h clean))
    where
      still : (s : Impl S) → IsCovered dev m s → (s.dirty ≡ false) → IsStill dev m s
      still s (inl dirty) clean = absurd cc
      still s (inr h) clean = h

  pub checkpoint_admitted-Still :
      (s : Impl S)
      → IsCovered dev m s
      → Outcome (IsStill dev m) (Safely dev m) (checkpoint_admitted dev s)
  checkpoint_admitted-Still s h =
      chain-Outcome (emit_builder-Covered dev m s h) (λ a ha. sync_if_dirty-Still a ha)

  close-Safe : (s : Impl S) → IsSafe dev m s → StaysSafe (close dev s)
  unfolding close
  close-Safe s h =
      if-Outcome s.closed (λ _. returned h)
        (λ _.
          if-Outcome (not s.writable) (λ _. returned h)
            (λ _.
              if-Outcome s.faulted (λ _. status-Outcome s.fault_status h (λ _. h))
                (λ sane.
                  chain-Outcome (checkpoint_admitted-Still s (covered s h sane))
                    (λ a ha. returned (inr (inr ha))))))

  pub rotate_admitted-Still :
      (next : PartitionOptions) (s : Impl S)
      → IsCovered dev m s
      → Outcome (IsStill dev m) (Safely dev m) (rotate_admitted dev next s)
  rotate_admitted-Still next s h =
      chain-Outcome
        (chain-Outcome (status-Outcome {Good = IsCovered dev m} _ h (λ _. inr h))
          (λ a ha. emit_builder-Covered dev m a ha))
        (λ b hb. rotate_internal-Still dev m next (record b { next_options = next }) hb)

  set_next-Safe :
      (options : PartitionOptions) (s : Impl S)
      → IsCovered dev m s
      → StaysSafe (set_next_admitted dev options s)
  set_next-Safe options s h =
      chain-Outcome (status-Outcome {Good = IsCovered dev m} _ h (λ _. inr h))
        (λ a ha. returned (inr ha))

  run-Safe : (call : Call) (s : Impl S) → IsSafe dev m s → StaysSafe (run dev call s)
  unfolding run append publish checkpoint rotate set_next_partition_options
  run-Safe (call_append view time flags) s h = append_impl-Safe view time flags none s h
  run-Safe (call_append_checked view time expected flags) s h =
      append_checked-Safe view time expected flags s h
  run-Safe call_publish s h =
      admitted-Safe (emit_builder dev) s h
        (λ k. safe-Outcome (emit_builder-Covered dev m s k) (λ a ha. ha))
  run-Safe call_checkpoint s h =
      admitted-Safe (checkpoint_admitted dev) s h
        (λ k. safe-Outcome (checkpoint_admitted-Still s k) (λ a ha. inr ha))
  run-Safe call_close s h = close-Safe s h
  run-Safe (call_rotate next) s h =
      admitted-Safe (rotate_admitted dev next) s h
        (λ k. safe-Outcome (rotate_admitted-Still next s k) (λ a ha. inr ha))
  run-Safe (call_set_next options) s h =
      admitted-Safe (set_next_admitted dev options) s h (λ k. set_next-Safe options s k)

  -- Unless it is faulted, a store that is not dirty has a flushed backend, after any calls.
  pub run_all-Safe :
      (calls : List Call) (s : Impl S) → IsSafe dev m s → IsSafe dev m (run_all dev calls s)
  unfolding run_all
  run_all-Safe [] s h = h
  run_all-Safe (call ∷ calls) s h =
      run_all-Safe calls (run dev call s).1 (always-Outcome (run-Safe call s h))

-- ===== src/RingStore/Latch.antt =====
-- The fault that the store latches, and the calls after it.
use tfdb.Prelude.{
  ◌≡◌, refl, ap, inl, inr, Bool, true, false, not, ◌||◌, none, some, List, [], ◌∷◌, arith, ◌==◌,
  if◌then◌else◌, Bool-cases,
}
use tfdb.Status.{ErrorCode, Status, ok, error}
use tfdb.RingStore.Outcome.{
  Outcome, returned, stopped, chain-Outcome, if-Outcome, weaken-Outcome, error-Outcome,
}
use tfdb.RingStore.State.{Device, Impl}
use tfdb.RingStore.Consistent.{IsConsistent, IsFaulted}
use tfdb.RingStore.Emit.{emit_builder}
use tfdb.RingStore.Append.{
  admitted, append_impl, append, append_checked, publish, checkpoint, close, rotate,
  set_next_partition_options, checkpoint_admitted, append_admitted, rotate_admitted,
  set_next_admitted,
}
use tfdb.RingStore.Run.{
  Call, run, run_all, call_append, call_append_checked, call_publish, call_checkpoint, call_close,
  call_rotate, call_set_next,
}
use tfdb.RingStore.Effects.{sync_media-IsDrained}
use tfdb.RingStore.Emitted.{emit_builder-Outcome}

module _ {S : Type 0} (dev : Device S) where
  -- A store that is open for writing and has latched a fault.
  abbrev pub IsStuck : Impl S → Type 0
  IsStuck s = (s.writable ≡ true) × (s.closed ≡ false) × (s.faulted ≡ true)

  admitted-stuck :
      (f : Impl S → Status × Impl S) (s : Impl S)
      → IsStuck s
      → admitted dev f s ≡ (s.fault_status, s)
  unfolding admitted
  admitted-stuck f s (w, o, f') = rw (w, o, f') refl

  -- The call asks for a contract that `append_checked` refuses before it looks at the store.
  unfoldable pub asks_for_nothing : Call → Bool
  asks_for_nothing (call_append_checked view time expected flags) =
      expected.record_format_id == 0
      || expected.record_format_version == 0
      || expected.time_domain_id == 0
  asks_for_nothing call = false

  -- A writable, open store that is faulted answers every call with its fault, and the call changes
  -- nothing. The one exception is an `append_checked` without a contract, which is refused as such.
  run-stuck :
      (call : Call) (s : Impl S)
      → IsStuck s
      → run dev call s
        ≡ (if asks_for_nothing call then error ErrorCode.invalid_argument else s.fault_status, s)
  unfolding run asks_for_nothing append append_checked append_impl publish checkpoint close rotate
      set_next_partition_options
  run-stuck (call_append view time flags) s h =
      admitted-stuck (append_admitted dev view time flags none) s h
  run-stuck (call_append_checked view time expected flags) s h =
      elim (Bool-cases (
        expected.record_format_id == 0
        || expected.record_format_version == 0
        || expected.time_domain_id == 0)) [
          | inl e ↦ rw e refl
          | inr e ↦ rw e (admitted-stuck (append_admitted dev view time flags (some expected)) s h)
        ]
  run-stuck call_publish s h = admitted-stuck (emit_builder dev) s h
  run-stuck call_checkpoint s h = admitted-stuck (checkpoint_admitted dev) s h
  run-stuck call_close s (w, o, f) = rw (w, o, f) refl
  run-stuck (call_rotate next) s h = admitted-stuck (rotate_admitted dev next) s h
  run-stuck (call_set_next options) s h = admitted-stuck (set_next_admitted dev options) s h

  -- A writable, open store that is faulted is the same store after every sequence of calls.
  pub run_all-stuck : (calls : List Call) (s : Impl S) → IsStuck s → run_all dev calls s ≡ s
  unfolding run_all
  run_all-stuck [] s h = refl
  run_all-stuck (call ∷ calls) s h =
      rw (ap (λ r. r.1) (run-stuck call s h)) (run_all-stuck calls s h)

  checkpoint_admitted-IsFaulted :
      (s : Impl S)
      → IsConsistent s
      → Outcome (λ _. Unit) (λ c s'. IsFaulted c s') (checkpoint_admitted dev s)
  checkpoint_admitted-IsFaulted s h = chain-Outcome (emit_builder-Outcome dev s h) (λ a ha.
      if-Outcome a.dirty
        (λ _.
          weaken-Outcome (sync_media-IsDrained dev s.metrics.accepted_records a ha) (λ b hb. tt)
            (λ c b hb. hb))
        (λ _. returned tt))

  latched-IsFaulted :
      (status : Status) (s : Impl S)
      → IsConsistent s
      → (s.faulted ≡ true)
      → (s.fault_status ≡ status)
      → Outcome (λ _. Unit) (λ c s'. IsFaulted c s') (status, s)
  latched-IsFaulted ok s h f e = returned tt
  latched-IsFaulted (error c) s h f e = stopped (h, f, e)

  open-IsFaulted :
      (f : Impl S → Status × Impl S) (s : Impl S)
      → IsConsistent s
      → (s.writable ≡ true)
      → (s.closed ≡ false)
      → Outcome (λ _. Unit) (λ c s'. IsFaulted c s') (f s)
      → Outcome (λ _. Unit) (λ c s'. IsFaulted c s') (admitted dev f s)
  unfolding admitted
  open-IsFaulted f s h w o k =
      if-Outcome (not s.writable) (λ e. absurd (ground arith))
        (λ _.
          if-Outcome s.closed (λ e. absurd cc)
            (λ _. if-Outcome s.faulted (λ e. latched-IsFaulted s.fault_status s h e refl) (λ _. k)))

  checkpoint-IsFaulted :
      (s : Impl S)
      → IsConsistent s
      → (s.writable ≡ true)
      → (s.closed ≡ false)
      → Outcome (λ _. Unit) (λ c s'. IsFaulted c s') (checkpoint dev s)
  unfolding checkpoint
  checkpoint-IsFaulted s h w o =
      open-IsFaulted (checkpoint_admitted dev) s h w o (checkpoint_admitted-IsFaulted s h)

  -- A checkpoint of a consistent store that is writable and not closed returns an error only if the
  -- store is then faulted with that error: no failure to make a record durable is forgotten.
  pub checkpoint-latches :
      (s : Impl S) (c : ErrorCode)
      → IsConsistent s
      → (s.writable ≡ true)
      → (s.closed ≡ false)
      → ((checkpoint dev s).0 ≡ error c)
      → ((checkpoint dev s).1.faulted ≡ true) × ((checkpoint dev s).1.fault_status ≡ error c)
  checkpoint-latches s c h w o e =
      let fault = error-Outcome (checkpoint-IsFaulted s h w o) e in (fault.1, fault.2)

-- ===== src/RingStore/Accepted.antt =====
-- `append_impl` and the invariants.
use tfdb.Prelude.{
  ℕ, ◌≡◌, refl, sym, ap, ◌∙◌, inl, inr, Bool, true, false, not, Option, List, ◌++◌, arith, ltb,
  ◌==◌, Bool-cases, length, length-append, ℤ,
}
use tfdb.Status.{ok}
use tfdb.RingStore.Outcome.{
  Outcome, returned, stopped, chain-Outcome, if-Outcome, option-Outcome, weaken-Outcome,
}
use tfdb.Bytes.{ByteView, empty, valid, contents, size, bytes, null}
use tfdb.Format.Partition.{PartitionOptions}
use tfdb.RingStore.State.{Device, Impl, active, sub64, add64}
use tfdb.RingStore.Consistent.{pending, IsLatched, IsMirrored, IsConsistent}
use tfdb.RingStore.Append.{
  AppendContract, append_impl, append_record, append_active, accept_record, buffer_record,
  note_undurable, count_anomaly, is_anomaly, breaks_contract, append_admitted,
}
use tfdb.RingStore.Emitted.{Anyway}
use tfdb.RingStore.Rotated.{ensure_empty_builder_capacity-Outcome, Counts}
use tfdb.RingStore.Admitted.{admitted-Outcome, emptied-Outcome}

module _ {S : Type 0} (dev : Device S) where
  note_undurable-Counts :
      (n : ℕ) (s : Impl S)
      → IsLatched s
      → IsMirrored s
      → (s.metrics.accepted_records ≡ n)
      → (pending s ≡ true)
      → Counts dev n (note_undurable dev s)
  unfolding note_undurable
  note_undurable-Counts n s l (m1, m2, m3, m4, m6, m7, m8, m9, m10) e waiting =
      elim (Bool-cases s.have_undurable_records) [
        | inl have ↦
            rw have
              (((sym waiting, λ no. absurd cc), l, (m1, m2, m3, m4 ∙ have, m6, m7, m8, m9, m10)), e)
        | inr have ↦
            rw have
              (((sym waiting, λ no. absurd cc), l, (m1, m2, m3, refl, m6, m7, m8, m9, m10)), e)
      ]

  append_waiting :
      (xs bs : List ℕ) → ((length bs == 0) ≡ false) → not (length (xs ++ bs) == 0) ≡ true
  append_waiting xs bs e = rw length-append (ground arith)

  -- What stays of the invariants while the builder changes.
  abbrev Holds : ℕ → Impl S → Type 0
  Holds n s = IsLatched s × IsMirrored s × (s.metrics.accepted_records ≡ n)

  count_anomaly-Holds :
      (n : ℕ) (anomaly : Bool) (s : Impl S) → Holds n s → Holds n (count_anomaly dev anomaly s)
  count_anomaly-Holds n true s h = h
  count_anomaly-Holds n false s h = h

  buffer_record-Counts :
      (n : ℕ) (bs : List ℕ) (time : ℤ) (flags : ℕ) (s : Impl S)
      → ((length bs == 0) ≡ false)
      → Holds n s
      → Counts dev (add64 n 1) (note_undurable dev (buffer_record dev bs time flags s))
  unfolding buffer_record
  buffer_record-Counts n bs time flags s given (l, m, e) =
      note_undurable-Counts (add64 n 1) (buffer_record dev bs time flags s) l m
        (ap (λ accepted. add64 accepted 1) e) (rw (append_waiting s.builder bs given) refl)

  accept_record-Outcome :
      (n : ℕ) (options : PartitionOptions) (bs : List ℕ) (time : ℤ) (flags : ℕ) (s : Impl S)
      → ((length bs == 0) ≡ false)
      → Counts dev n s
      → Outcome
          (Counts dev (add64 n 1))
          (Anyway dev)
          (ok, accept_record dev options bs time flags s)
  unfolding accept_record
  accept_record-Outcome n options bs time flags s given h =
      let anomaly = is_anomaly s.have_last_time s.last_time time options in
      returned (
        buffer_record-Counts n bs time _ (count_anomaly dev anomaly s) given
          (count_anomaly-Holds n anomaly s (h.0.1, h.0.2, h.1)))

  append_active-Outcome :
      (n : ℕ) (expected : Option AppendContract) (bs : List ℕ) (time : ℤ) (flags : ℕ) (s : Impl S)
      → ((length bs == 0) ≡ false)
      → Counts dev n s
      → Outcome (Counts dev (add64 n 1)) (Anyway dev) (append_active dev expected bs time flags s)
  unfolding append_active
  append_active-Outcome n expected bs time flags s given h =
      option-Outcome (active s) (stopped h.0) (λ p _.
        if-Outcome (breaks_contract expected p.header.options) (λ _. stopped h.0)
          (λ _. accept_record-Outcome n p.header.options bs time flags s given h))

  append_record-Outcome :
      (expected : Option AppendContract) (bs : List ℕ) (time : ℤ) (flags : ℕ) (s : Impl S)
      → ((length bs == 0) ≡ false)
      → IsConsistent s
      → Outcome
          (Counts dev (add64 s.metrics.accepted_records 1))
          (Anyway dev)
          (append_record dev expected bs time flags s)
  unfolding append_record
  append_record-Outcome expected bs time flags s given h =
      let n = s.metrics.accepted_records in
      chain-Outcome
        (chain-Outcome
          (if-Outcome (ltb (sub64 s.volume.max_block_payload (length s.builder)) (length bs))
            (λ _. weaken-Outcome (emptied-Outcome dev s h) (λ b hb. (hb.0, hb.2)) (λ c b hb. hb))
            (λ _. returned (h, refl)))
          (λ a ha. ensure_empty_builder_capacity-Outcome dev n a ha))
        (λ b hb. append_active-Outcome n expected bs time flags b given hb)

  contents_some :
      (view : ByteView)
      → (empty view ≡ false)
      → (not (valid view) ≡ false)
      → (length (contents view) == 0) ≡ false
  contents_some (bytes bs) e v = e
  contents_some (null n) e v = ground arith

  pub append_impl-Outcome :
      (view : ByteView) (time : ℤ) (flags : ℕ) (expected : Option AppendContract) (s : Impl S)
      → IsConsistent s
      → Outcome
          (Counts dev (add64 s.metrics.accepted_records 1))
          (Anyway dev)
          (append_impl dev view time flags expected s)
  unfolding append_impl
  append_impl-Outcome view time flags expected s h =
      admitted-Outcome dev (append_admitted dev view time flags expected) s h (λ h'.
        if-Outcome (empty view) (λ _. stopped h')
          (λ e.
            if-Outcome (not (valid view)) (λ _. stopped h')
              (λ v.
                if-Outcome (ltb s.volume.max_block_payload (size view)) (λ _. stopped h')
                  (λ _.
                    append_record-Outcome expected (contents view) time flags s
                      (contents_some view e v) h'))))

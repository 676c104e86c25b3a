-- ===== src/RingStore/Contract.antt =====
-- `append_checked` and the contract of the partition that takes the record.
use tfdb.Prelude.{
  ℕ, bit_or, ◌≡◌, refl, inl, inr, Bool, true, false, not, ◌||◌, some, List, ◌++◌, ltb, ◌==◌,
  if◌then◌else◌, Bool-cases, ℤ,
}
use tfdb.Status.{Status, ok, error}
use tfdb.Bytes.{ByteView, empty, valid, contents, size}
use tfdb.RingStore.Outcome.{
  Outcome, returned, stopped, chain-Outcome, if-Outcome, option-Outcome, ok-Outcome,
}
use tfdb.RingStore.State.{Device, Impl, PartitionState, active}
use tfdb.RingStore.Rotate.{ensure_empty_builder_capacity}
use tfdb.RingStore.Append.{
  AppendContract, admitted, append_impl, append_record, append_active, accept_record, buffer_record,
  note_undurable, count_anomaly, is_anomaly, accepted_flags, time_anomaly, breaks_contract,
  append_checked,
}

module _ {S : Type 0} (dev : Device S) where
  -- The record is at the end of the builder, and the active partition has the contract.
  abbrev pub Takes : AppendContract → List ℕ → Impl S → Type 0
  Takes expected bs s =
      (p : PartitionState) × (active s ≡ some p)
      × (breaks_contract (some expected) p.header.options ≡ false)
      × (before : List ℕ) × (s.builder ≡ before ++ bs)

  noted-Takes :
      (expected : AppendContract) (bs : List ℕ) (s : Impl S)
      → Takes expected bs s
      → Takes expected bs (note_undurable dev s)
  unfolding note_undurable
  noted-Takes expected bs s h = elim (Bool-cases s.have_undurable_records) [
    | inl e ↦ rw e h
    | inr e ↦ rw e h
  ]

  buffered-Takes :
      (expected : AppendContract) (bs : List ℕ) (time : ℤ) (flags : ℕ) (anomaly : Bool)
      (p : PartitionState) (s : Impl S)
      → (active s ≡ some p)
      → (breaks_contract (some expected) p.header.options ≡ false)
      → Takes expected bs (buffer_record dev bs time flags (count_anomaly dev anomaly s))
  unfolding buffer_record
  buffered-Takes expected bs time flags true p s here kept = (p, here, kept, s.builder, refl)
  buffered-Takes expected bs time flags false p s here kept = (p, here, kept, s.builder, refl)

  settles : (m : Status × Impl S) → Outcome {0, 0} (λ _. Unit) (λ _ _. Unit) m
  settles (ok, s) = returned tt
  settles (error c, s) = stopped tt

  append_active-Takes :
      (expected : AppendContract) (bs : List ℕ) (time : ℤ) (flags : ℕ) (s : Impl S)
      → Outcome
          (λ s'. Takes expected bs s')
          (λ _ _. Unit)
          (append_active dev (some expected) bs time flags s)
  unfolding append_active accept_record
  append_active-Takes expected bs time flags s = option-Outcome (active s) (stopped tt) (λ p here.
      if-Outcome (breaks_contract (some expected) p.header.options) (λ _. stopped tt)
        (λ kept.
          let anomaly = is_anomaly s.have_last_time s.last_time time p.header.options in
          let own = accepted_flags flags in
          let all = if anomaly then bit_or own time_anomaly else own in
          returned (
            noted-Takes expected bs (buffer_record dev bs time all (count_anomaly dev anomaly s))
              (buffered-Takes expected bs time all anomaly p s here kept))))

  append_record-Takes :
      (expected : AppendContract) (bs : List ℕ) (time : ℤ) (flags : ℕ) (s : Impl S)
      → Outcome
          (λ s'. Takes expected bs s')
          (λ _ _. Unit)
          (append_record dev (some expected) bs time flags s)
  unfolding append_record
  append_record-Takes expected bs time flags s =
      chain-Outcome
        (chain-Outcome (settles _) (λ a _. settles (ensure_empty_builder_capacity dev a)))
        (λ b _. append_active-Takes expected bs time flags b)

  append_impl-Takes :
      (view : ByteView) (time : ℤ) (expected : AppendContract) (flags : ℕ) (s : Impl S)
      → (s.faulted ≡ false)
      → Outcome
          (λ s'. Takes expected (contents view) s')
          (λ _ _. Unit)
          (append_impl dev view time flags (some expected) s)
  unfolding append_impl admitted
  append_impl-Takes view time expected flags s sane =
      if-Outcome (not s.writable) (λ _. stopped tt)
        (λ _.
          if-Outcome s.closed (λ _. stopped tt)
            (λ _.
              if-Outcome s.faulted (λ faulted. absurd cc)
                (λ _.
                  if-Outcome (empty view) (λ _. stopped tt)
                    (λ _.
                      if-Outcome (not (valid view)) (λ _. stopped tt)
                        (λ _.
                          if-Outcome (ltb s.volume.max_block_payload (size view)) (λ _. stopped tt)
                            (λ _. append_record-Takes expected (contents view) time flags s))))))

  append_checked-Takes :
      (view : ByteView) (time : ℤ) (expected : AppendContract) (flags : ℕ) (s : Impl S)
      → (s.faulted ≡ false)
      → Outcome
          (λ s'. Takes expected (contents view) s')
          (λ _ _. Unit)
          (append_checked dev view time expected flags s)
  unfolding append_checked
  append_checked-Takes view time expected flags s sane =
      if-Outcome
        (expected.record_format_id == 0
          || expected.record_format_version == 0
          || expected.time_domain_id == 0)
        (λ _. stopped tt) (λ _. append_impl-Takes view time expected flags s sane)

  -- An `append_checked` of a store without a fault that returns `ok` has put the record at the end of
  -- the builder, and the partition that is then active has the contract that was asked for, whether
  -- or not a rotation came before the record.
  pub append_checked-contract :
      (view : ByteView) (time : ℤ) (expected : AppendContract) (flags : ℕ) (s : Impl S)
      → (s.faulted ≡ false)
      → ((append_checked dev view time expected flags s).0 ≡ ok)
      → Takes expected (contents view) (append_checked dev view time expected flags s).1
  append_checked-contract view time expected flags s sane e =
      ok-Outcome (append_checked-Takes view time expected flags s sane) e

-- ===== src/RingStore/Flushed.antt =====
-- The flushes of `create_partition`, `rotate_internal` and `emit_builder`: unless a store is faulted, its
-- backend is flushed or the store is dirty.
use tfdb.Prelude.{
  ℕ, ◌-◌, ◌^◌, ◌≡◌, refl, ◌⊎◌, inl, inr, Bool, true, false, not, ◌||◌, List, ltb, ◌==◌, Bool-cases,
  length,
}
use tfdb.Status.{ErrorCode, Status, ok, error}
use tfdb.RingStore.Outcome.{
  Outcome, returned, stopped, chain-Outcome, if-Outcome, option-Outcome, status-Outcome,
  result-Outcome, weaken-Outcome,
}
use tfdb.Format.Partition.{PartitionOptions}
use tfdb.Format.Index.{encode_index}
use tfdb.Format.{partition_header_region_size}
use tfdb.Codec.{CompressionCodec}
use tfdb.RingStore.State.{Device, Impl, PartitionState, active, fail, index_begin, sub64}
use tfdb.RingStore.Medium.{Medium}
use tfdb.RingStore.Media.{
  settle_undurable, advance_durability, sync_failed, after_sync, record_sync, sync_media,
}
use tfdb.RingStore.Rotate.{
  write_or_fail, create_partition, install_partition, write_footer, seal_partition,
  seal_active_only, rotate_from, rotate_internal, worst_span, data_full, index_full, ensure_for,
  ensure_empty_builder_capacity,
}
use tfdb.RingStore.Emit.{
  Payload, emit_builder, emit_from, emit_with, emit_payload, write_frame, published,
  compress_builder, frame_span, too_large, no_room,
}
use tfdb.RingStore.Effects.{write_or_fail-Outcome}

module _ {S : Type 0} (dev : Device S) (m : Medium dev) where
  abbrev pub IsStill : Impl S → Type 0
  IsStill s = m.IsFlushed s.storage

  abbrev pub IsCovered : Impl S → Type 0
  IsCovered s = (s.dirty ≡ true) ⊎ IsStill s

  abbrev pub IsSafe : Impl S → Type 0
  IsSafe s = (s.faulted ≡ true) ⊎ IsCovered s

  abbrev pub Safely : ErrorCode → Impl S → Type 0
  Safely c s = IsSafe s

  abbrev Anything : Impl S → Type 0
  Anything s = Unit {0}

  fail-Safe : {Good : Impl S → Type 0} (c : ErrorCode) (s : Impl S) → Outcome Good Safely (fail c s)
  unfolding fail
  fail-Safe c s = stopped (inl refl)

  write-Safe :
      (offset : ℕ) (bs : List ℕ) (s : Impl S)
      → Outcome Anything Safely (write_or_fail dev offset bs s)
  unfolding fail
  write-Safe offset bs s = write_or_fail-Outcome dev offset bs s (λ d. tt) (λ c d. inl refl)

  settled-IsStill : (s : Impl S) → IsStill s → IsStill (settle_undurable dev s)
  unfolding settle_undurable
  settled-IsStill s h = elim (Bool-cases s.have_undurable_records) [
    | inl e ↦ rw e (m.now-IsFlushed s.storage h)
    | inr e ↦ rw e h
  ]

  after_sync-Still :
      (advances : Bool) (status : Status) (s : Impl S)
      → ((status ≡ ok) → IsStill s)
      → Outcome IsStill Safely (after_sync dev advances status s)
  unfolding sync_failed fail advance_durability
  after_sync-Still advances (error c) s h = stopped (inl refl)
  after_sync-Still true ok s h = returned (settled-IsStill _ (h refl))
  after_sync-Still false ok s h = returned (h refl)

  -- A flush that returns ok.
  pub sync_media-Still :
      (advances : Bool) (s : Impl S) → Outcome IsStill Safely (sync_media dev advances s)
  unfolding sync_media record_sync
  sync_media-Still advances s =
      let d = (dev.now s.storage).1 in
      after_sync-Still advances (dev.flush d).0 _
        (λ e. m.now-IsFlushed (dev.flush d).1 (m.flush-IsFlushed d e))

  pub create_partition-Still :
      (slot generation : ℕ) (options : PartitionOptions) (s : Impl S)
      → IsCovered s
      → Outcome IsStill Safely (create_partition dev slot generation options s)
  unfolding create_partition install_partition
  create_partition-Still slot generation options s h =
      if-Outcome (generation == 0) (λ _. stopped (inr h))
        (λ _.
          chain-Outcome
            (chain-Outcome
              (chain-Outcome (status-Outcome {Good = Anything} _ tt (λ _. inr h))
                (λ a _. write-Safe _ _ a))
              (λ b _. sync_media-Still false b))
            (λ d hd. returned hd))

  write_footer-Still :
      (p : PartitionState) (s : Impl S) → Outcome IsStill Safely (write_footer dev p s)
  unfolding write_footer
  write_footer-Still p s =
      if-Outcome (ltb s.volume.index_region_size (length (encode_index p.active_index)))
        (λ _. fail-Safe ErrorCode.internal_error s)
        (λ _.
          chain-Outcome
            (chain-Outcome
              (if-Outcome {Good = Anything} (length (encode_index p.active_index) == 0)
                (λ _. returned tt) (λ _. write-Safe _ _ s))
              (λ a _. write-Safe _ _ a))
            (λ b _. sync_media-Still false b))

  seal_partition-Still :
      (p : PartitionState) (s : Impl S) → Outcome IsStill Safely (seal_partition dev p s)
  unfolding seal_partition
  seal_partition-Still p s =
      chain-Outcome
        (chain-Outcome
          (if-Outcome {Good = Anything} s.dirty
            (λ _. weaken-Outcome (sync_media-Still true s) (λ a _. tt) (λ c a ha. ha))
            (λ _. returned tt))
          (λ a _. write_footer-Still p a))
        (λ b hb. returned hb)

  seal_active_only-Still :
      (s : Impl S) → IsCovered s → Outcome IsStill Safely (seal_active_only dev s)
  unfolding seal_active_only
  seal_active_only-Still s h =
      option-Outcome (active s) (stopped (inr h))
        (λ p _. if-Outcome p.sealed (λ _. stopped (inr h)) (λ _. seal_partition-Still p s))

  rotate_from-Still :
      (p : PartitionState) (options : PartitionOptions) (s : Impl S)
      → IsCovered s
      → Outcome IsStill Safely (rotate_from dev p options s)
  unfolding rotate_from
  rotate_from-Still p options s h =
      if-Outcome (p.header.generation == 2 ^ 64 - 1)
        (λ _. fail-Safe ErrorCode.generation_exhausted s)
        (λ _.
          chain-Outcome
            (chain-Outcome (seal_active_only-Still s h)
              (λ a ha. create_partition-Still _ _ options a (inr ha)))
            (λ b hb. returned hb))

  pub rotate_internal-Still :
      (options : PartitionOptions) (s : Impl S)
      → IsCovered s
      → Outcome IsStill Safely (rotate_internal dev options s)
  unfolding rotate_internal
  rotate_internal-Still options s h =
      option-Outcome (active s) (stopped (inr h)) (λ p _. rotate_from-Still p options s h)

  ensure_for-Covered :
      (p : PartitionState) (s : Impl S)
      → IsCovered s
      → Outcome IsCovered Safely (ensure_for dev p s)
  unfolding ensure_for
  ensure_for-Covered p s h =
      let span = (worst_span dev s.volume).0 in
      if-Outcome
        ((worst_span dev s.volume).1
          || ltb (sub64 (index_begin s.volume) partition_header_region_size) span)
        (λ _. fail-Safe ErrorCode.no_space s)
        (λ _.
          if-Outcome (data_full dev s.volume p span || index_full dev s.volume p)
            (λ _.
              weaken-Outcome (rotate_internal-Still s.next_options s h) (λ a ha. inr ha)
                (λ c a ha. ha))
            (λ _. returned h))

  pub ensure_empty_builder_capacity-Covered :
      (s : Impl S) → IsCovered s → Outcome IsCovered Safely (ensure_empty_builder_capacity dev s)
  unfolding ensure_empty_builder_capacity
  ensure_empty_builder_capacity-Covered s h =
      if-Outcome (not (length s.builder == 0)) (λ _. returned h)
        (λ e. option-Outcome (active s) (stopped (inr h)) (λ p _. ensure_for-Covered p s h))

  emit_payload-Covered :
      (p : PartitionState) (payload : Payload) (s : Impl S)
      → Outcome IsCovered Safely (emit_payload dev p payload s)
  unfolding emit_payload write_frame published
  emit_payload-Covered p payload s =
      let span = (frame_span dev s.volume payload).0 in
      if-Outcome (too_large dev s.volume payload) (λ _. fail-Safe ErrorCode.out_of_range s)
        (λ _.
          if-Outcome (no_room dev s.volume p span) (λ _. fail-Safe ErrorCode.internal_error s)
            (λ _. chain-Outcome (write-Safe _ _ s) (λ a _. returned (inl refl))))

  emit_with-Covered :
      (p : PartitionState) (codec : CompressionCodec) (s : Impl S)
      → Outcome IsCovered Safely (emit_with dev p codec s)
  unfolding emit_with
  emit_with-Covered p codec s =
      result-Outcome (compress_builder p.header.options codec s.builder) (λ c. fail-Safe c s)
        (λ compressed. emit_payload-Covered p _ s)

  emit_from-Covered :
      (p : PartitionState) (s : Impl S) → Outcome IsCovered Safely (emit_from dev p s)
  unfolding emit_from
  emit_from-Covered p s =
      option-Outcome _ (fail-Safe ErrorCode.unsupported s) (λ codec _. emit_with-Covered p codec s)

  pub emit_builder-Covered :
      (s : Impl S) → IsCovered s → Outcome IsCovered Safely (emit_builder dev s)
  unfolding emit_builder
  emit_builder-Covered s h =
      if-Outcome (length s.builder == 0) (λ e. returned h)
        (λ e.
          option-Outcome (active s) (fail-Safe ErrorCode.internal_error s)
            (λ p _. emit_from-Covered p s))

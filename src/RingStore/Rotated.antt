-- ===== src/RingStore/Rotated.antt =====
-- `create_partition`, `rotate_internal`, `ensure_empty_builder_capacity` and the invariants.
use tfdb.Prelude.{ℕ, ◌-◌, ◌^◌, ◌≡◌, refl, ap, ◌∙◌, Bool, not, ◌||◌, List, arith, ltb, ◌==◌, length}
use tfdb.Status.{ErrorCode, ok}
use tfdb.RingStore.Outcome.{
  Outcome, returned, stopped, chain-Outcome, if-Outcome, option-Outcome, weaken-Outcome,
  status-Outcome,
}
use tfdb.RingStore.State.{Device, Impl, PartitionState, active}
use tfdb.RingStore.Rotate.{
  write_or_fail, create_partition, install_partition, write_footer, seal_partition,
  seal_active_only, rotate_from, rotate_internal, ensure_for, ensure_empty_builder_capacity,
}
use tfdb.Format.Partition.{PartitionHeader, PartitionOptions}
use tfdb.RingStore.Consistent.{IsConsistent, IsDrained, IsDurable}
use tfdb.RingStore.Effects.{
  fail-IsFaulted, write_or_fail-Outcome, sync_media-IsDurable, sync_media-IsDrained,
}
use tfdb.Format.{partition_header_region_size}
use tfdb.Format.Index.{encode_index}
use tfdb.RingStore.State.{index_begin, sub64}
use tfdb.RingStore.Rotate.{worst_span, data_full, index_full}
use tfdb.RingStore.Emitted.{length_zero, fail-Outcome, Anyway, forget}

module _ {S : Type 0} (dev : Device S) where
  written-IsDurable :
      (n offset : ℕ) (bs : List ℕ) (s : Impl S)
      → IsDurable n s
      → Outcome (IsDurable n) ((Anyway dev)) (write_or_fail dev offset bs s)
  written-IsDurable n offset bs s h =
      write_or_fail-Outcome dev offset bs s (λ d. h)
        (λ c d. (fail-IsFaulted c (record s { storage = d }) h.0.0).0)

  installed-Outcome :
      (n : ℕ) (header : PartitionHeader) (changed : Bool) (s : Impl S)
      → IsDurable n s
      → Outcome (IsDurable n) (Anyway dev) (ok, install_partition dev header changed s)
  unfolding install_partition
  installed-Outcome n header changed s ((((u, d), l, m), b, e), z) =
      let clean = ap (λ dirty. not (length s.builder == 0) || dirty) z in
      returned ((((u ∙ clean, (λ k. d (clean ∙ k))), l, m), b, e), refl)

  pub create_partition-Outcome :
      (n slot generation : ℕ) (options : PartitionOptions) (s : Impl S)
      → IsDurable n s
      → Outcome (IsDurable n) ((Anyway dev)) (create_partition dev slot generation options s)
  unfolding create_partition
  create_partition-Outcome n slot generation options s h =
      if-Outcome (generation == 0) (λ _. stopped h.0.0)
        (λ _.
          chain-Outcome
            (chain-Outcome
              (chain-Outcome (status-Outcome _ h (λ _. h.0.0))
                (λ a ha. written-IsDurable n _ _ a ha))
              (λ b hb. forget dev (sync_media-IsDurable dev n b hb)))
            (λ d hd. installed-Outcome n _ _ d hd))

  write_footer-Outcome :
      (n : ℕ) (p : PartitionState) (s : Impl S)
      → IsDurable n s
      → Outcome (IsDurable n) (Anyway dev) (write_footer dev p s)
  unfolding write_footer
  write_footer-Outcome n p s h =
      if-Outcome (ltb s.volume.index_region_size (length (encode_index p.active_index)))
        (λ _. forget dev (fail-Outcome dev ErrorCode.internal_error s h.0.0))
        (λ _.
          chain-Outcome
            (chain-Outcome
              (if-Outcome (length (encode_index p.active_index) == 0) (λ _. returned h)
                (λ _. written-IsDurable n _ _ s h))
              (λ a ha. written-IsDurable n _ _ a ha))
            (λ b hb. forget dev (sync_media-IsDurable dev n b hb)))

  seal_partition-Outcome :
      (n : ℕ) (p : PartitionState) (s : Impl S)
      → IsDrained n s
      → Outcome (IsDurable n) (Anyway dev) (seal_partition dev p s)
  unfolding seal_partition
  seal_partition-Outcome n p s h =
      chain-Outcome
        (chain-Outcome
          (if-Outcome s.dirty (λ _. forget dev (sync_media-IsDrained dev n s h))
            (λ clean. returned (h, clean)))
          (λ a ha. write_footer-Outcome n p a ha))
        (λ b hb. returned hb)

  seal_active_only-Outcome :
      (n : ℕ) (s : Impl S)
      → IsDrained n s
      → Outcome (IsDurable n) (Anyway dev) (seal_active_only dev s)
  unfolding seal_active_only
  seal_active_only-Outcome n s h =
      option-Outcome (active s) (stopped h.0)
        (λ p _. if-Outcome p.sealed (λ _. stopped h.0) (λ _. seal_partition-Outcome n p s h))

  rotate_from-Outcome :
      (n : ℕ) (p : PartitionState) (options : PartitionOptions) (s : Impl S)
      → IsDrained n s
      → Outcome (IsDurable n) (Anyway dev) (rotate_from dev p options s)
  unfolding rotate_from
  rotate_from-Outcome n p options s h =
      if-Outcome (p.header.generation == 2 ^ 64 - 1)
        (λ _. forget dev (fail-Outcome dev ErrorCode.generation_exhausted s h.0))
        (λ _.
          chain-Outcome
            (chain-Outcome (seal_active_only-Outcome n s h)
              (λ a ha. create_partition-Outcome n _ _ options a ha))
            (λ b hb. returned hb))

  -- A rotation makes every accepted record durable.
  pub rotate_internal-Outcome :
      (n : ℕ) (options : PartitionOptions) (s : Impl S)
      → IsDrained n s
      → Outcome (IsDurable n) (Anyway dev) (rotate_internal dev options s)
  unfolding rotate_internal
  rotate_internal-Outcome n options s h =
      option-Outcome (active s) (stopped h.0) (λ p _. rotate_from-Outcome n p options s h)

  -- `n` records were accepted.
  abbrev pub Counts : ℕ → Impl S → Type 0
  Counts n s = IsConsistent s × (s.metrics.accepted_records ≡ n)

  ensure_for-Outcome :
      (n : ℕ) (p : PartitionState) (s : Impl S)
      → IsDrained n s
      → Outcome (Counts n) (Anyway dev) (ensure_for dev p s)
  unfolding ensure_for
  ensure_for-Outcome n p s h =
      let span = (worst_span dev s.volume).0 in
      if-Outcome
        ((worst_span dev s.volume).1
          || ltb (sub64 (index_begin s.volume) partition_header_region_size) span)
        (λ _. forget dev (fail-Outcome dev ErrorCode.no_space s h.0))
        (λ _.
          if-Outcome (data_full dev s.volume p span || index_full dev s.volume p)
            (λ _.
              weaken-Outcome (rotate_internal-Outcome n s.next_options s h)
                (λ a ha. (ha.0.0, ha.0.2)) (λ c a ha. ha))
            (λ _. returned (h.0, h.2)))

  pub ensure_empty_builder_capacity-Outcome :
      (n : ℕ) (s : Impl S)
      → Counts n s
      → Outcome (Counts n) (Anyway dev) (ensure_empty_builder_capacity dev s)
  unfolding ensure_empty_builder_capacity
  ensure_empty_builder_capacity-Outcome n s h =
      if-Outcome (not (length s.builder == 0)) (λ _. returned h)
        (λ e.
          option-Outcome (active s) (stopped h.0)
            (λ p _. ensure_for-Outcome n p s (h.0, length_zero s.builder (ground arith), h.1)))

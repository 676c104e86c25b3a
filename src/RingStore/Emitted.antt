-- ===== src/RingStore/Emitted.antt =====
-- `emit_builder` and the invariants.
use tfdb.Prelude.{ℕ, ◌≡◌, refl, ◌∙◌, true, List, [], ◌∷◌, arith, ◌==◌, length}
use tfdb.Status.{ErrorCode, Status, ok}
use tfdb.RingStore.Outcome.{
  Outcome, returned, stopped, chain-Outcome, if-Outcome, option-Outcome, weaken-Outcome,
  result-Outcome,
}
use tfdb.RingStore.State.{Device, Impl, PartitionState, active, fail}
use tfdb.RingStore.Rotate.{write_or_fail}
use tfdb.RingStore.Emit.{
  Payload, emit_builder, emit_from, emit_with, emit_payload, write_frame, published,
  compress_builder, frame_span, too_large, no_room,
}
use tfdb.Codec.{CompressionCodec}
use tfdb.RingStore.Consistent.{pending, IsConsistent, IsDrained, IsFaulted}
use tfdb.RingStore.Effects.{fail-IsFaulted, write_or_fail-Outcome}

pub length_zero : (xs : List ℕ) → ((length xs == 0) ≡ true) → xs ≡ []
length_zero [] e = refl
length_zero (x ∷ xs) e = absurd (ground arith)

module _ {S : Type 0} (dev : Device S) where
  pub fail-Outcome :
      {Good : Impl S → Type 0} (c : ErrorCode) (s : Impl S)
      → IsConsistent s
      → Outcome Good IsFaulted (fail c s)
  unfolding fail
  fail-Outcome c s h = stopped (fail-IsFaulted c s h)

  abbrev IsWaiting : ℕ → Impl S → Type 0
  IsWaiting n s = IsConsistent s × (pending s ≡ true) × (s.metrics.accepted_records ≡ n)

  written-IsWaiting :
      (n offset : ℕ) (bs : List ℕ) (s : Impl S)
      → IsWaiting n s
      → Outcome (IsWaiting n) IsFaulted (write_or_fail dev offset bs s)
  written-IsWaiting n offset bs s h =
      write_or_fail-Outcome dev offset bs s (λ d. h)
        (λ c d. fail-IsFaulted c (record s { storage = d }) h.0)

  published-Outcome :
      (n : ℕ) (q : PartitionState) (stored raw : ℕ) (s : Impl S)
      → IsWaiting n s
      → Outcome (IsDrained n) IsFaulted (ok, published dev q stored raw s)
  unfolding published
  published-Outcome n q stored raw s (((u, d), l, m), waiting, e) =
      returned (((u ∙ waiting, (λ no. absurd cc)), l, m), refl, e)

  write_frame-Outcome :
      (n : ℕ) (p : PartitionState) (payload : Payload) (span : ℕ) (s : Impl S)
      → IsWaiting n s
      → Outcome (IsDrained n) IsFaulted (write_frame dev p payload span s)
  unfolding write_frame
  write_frame-Outcome n p payload span s h =
      chain-Outcome (written-IsWaiting n _ _ s h) (λ s' k. published-Outcome n _ _ _ s' k)

  emit_payload-Outcome :
      (n : ℕ) (p : PartitionState) (payload : Payload) (s : Impl S)
      → IsWaiting n s
      → Outcome (IsDrained n) IsFaulted (emit_payload dev p payload s)
  unfolding emit_payload
  emit_payload-Outcome n p payload s h =
      let span = (frame_span dev s.volume payload).0 in
      if-Outcome (too_large dev s.volume payload) (λ _. fail-Outcome ErrorCode.out_of_range s h.0)
        (λ _.
          if-Outcome (no_room dev s.volume p span)
            (λ _. fail-Outcome ErrorCode.internal_error s h.0)
            (λ _. write_frame-Outcome n p payload span s h))

  emit_with-Outcome :
      (n : ℕ) (p : PartitionState) (codec : CompressionCodec) (s : Impl S)
      → IsWaiting n s
      → Outcome (IsDrained n) IsFaulted (emit_with dev p codec s)
  unfolding emit_with
  emit_with-Outcome n p codec s h =
      result-Outcome (compress_builder p.header.options codec s.builder) (λ c. fail-Outcome c s h.0)
        (λ compressed. emit_payload-Outcome n p _ s h)

  emit_from-Outcome :
      (n : ℕ) (p : PartitionState) (s : Impl S)
      → IsWaiting n s
      → Outcome (IsDrained n) IsFaulted (emit_from dev p s)
  unfolding emit_from
  emit_from-Outcome n p s h =
      option-Outcome _ (fail-Outcome ErrorCode.unsupported s h.0)
        (λ codec _. emit_with-Outcome n p codec s h)

  -- The builder is emptied, or the store is faulted by the error that is returned.
  pub emit_builder-Outcome :
      (s : Impl S)
      → IsConsistent s
      → Outcome (IsDrained s.metrics.accepted_records) IsFaulted (emit_builder dev s)
  unfolding emit_builder
  emit_builder-Outcome s h =
      if-Outcome (length s.builder == 0) (λ e. returned (h, length_zero s.builder e, refl))
        (λ e.
          option-Outcome (active s) (fail-Outcome ErrorCode.internal_error s h)
            (λ p _. emit_from-Outcome s.metrics.accepted_records p s (h, rw e, refl)))

  -- The invariants hold whether or not an error is latched.
  abbrev pub Anyway : ErrorCode → Impl S → Type 0
  Anyway c s = IsConsistent s

  pub forget :
      {Good : Impl S → Type 0} {m : Status × Impl S}
      → Outcome Good IsFaulted m
      → Outcome Good Anyway m
  forget h = weaken-Outcome h (λ s k. k) (λ c s k. k.0)

-- ===== src/RingStore/Written.antt =====
-- What `emit_builder` has written when it returns ok.
use tfdb.Prelude.{
  ℕ, ◌≡◌, refl, ◌⊎◌, inl, inr, Bool, some, List, [], ◌++◌, ltb, ◌==◌, Bool-cases, length,
}
use tfdb.Status.{ErrorCode, Status, ok, error, Result, returns, fails, reject_if, ◌>>=◌, ◌>>◌}
use tfdb.Bytes.{bytes}
use tfdb.Crc.{crc32c}
use tfdb.Format.Block.{BlockHeader, encode_block_header}
use tfdb.Format.Partition.{PartitionOptions}
use tfdb.Codec.{CompressionCodec, none_id}
use tfdb.RingStore.Outcome.{
  Outcome, returned, stopped, chain-Outcome, if-Outcome, option-Outcome, weaken-Outcome,
}
use tfdb.RingStore.State.{
  Device, Impl, PartitionState, active, fail, partition_base, add64, codec_for,
}
use tfdb.RingStore.Emitted.{length_zero}
use tfdb.RingStore.Medium.{Medium}
use tfdb.RingStore.Rotate.{after_write, write_or_fail}
use tfdb.RingStore.Emit.{
  Payload, emit_builder, emit_from, emit_with, emit_payload, write_frame, published, block_of,
  compress_builder, choose_payload, frame_span, too_large, no_room,
}

-- The records as they are, or compressed.
abbrev pub IsPayload : List ℕ → List ℕ → Type 0
IsPayload builder payload =
    (payload ≡ builder)
    ⊎ ((codec : CompressionCodec) × (codec.compress (bytes builder) ≡ returns payload))

tested :
    (r : Result (List ℕ)) (first second : List ℕ → Bool) (c : ErrorCode) (compressed : List ℕ)
    → ((do bs ← r; reject_if (first bs) c; reject_if (second bs) c; returns bs)
        ≡ returns compressed)
    → r ≡ returns compressed
tested (fails code) first second c compressed h = absurd cc
tested (returns bs) first second c compressed h = elim (Bool-cases (first bs)) [
  | inl e ↦ (let wrong = rw e at h in absurd cc)
  | inr e ↦ elim (Bool-cases (second bs)) [
    | inl e' ↦ (let wrong = rw (e, e') at h in absurd cc)
    | inr e' ↦ rw (e, e') at h
  ]
]

chosen-IsPayload :
    (options : PartitionOptions) (codec : CompressionCodec) (builder compressed : List ℕ)
    → (compress_builder options codec builder ≡ returns compressed)
    → IsPayload builder (choose_payload options codec builder compressed).stored
unfolding compress_builder choose_payload
chosen-IsPayload options codec builder compressed h =
    elim (Bool-cases (options.compression == none_id)) [
      | inl plain ↦ rw plain (inl refl)
      | inr packed ↦ elim (Bool-cases (ltb (length compressed) (length builder))) [
        | inr longer ↦ rw (packed, longer) (inl refl)
        | inl shorter ↦
            rw (packed, shorter)
              (inr (
                codec,
                tested (codec.compress (bytes builder))
                    (λ bs. ltb (codec.max_compressed_size (length builder)) (length bs))
                    (λ bs. length bs == 0) ErrorCode.internal_error compressed (rw packed at h),
              ))
      ]
    ]

module _ {S : Type 0} (dev : Device S) (m : Medium dev) where
  abbrev Anything : ErrorCode → Impl S → Type 0
  Anything c s = Unit {0}

  -- The frame of a block of the builder's records is held where the active partition went on.
  abbrev pub IsHeld : Impl S → Impl S → Type 0
  IsHeld s s' =
      (p : PartitionState) × (b : BlockHeader) × (payload : List ℕ) × (active s ≡ some p)
      × m.Holds (add64 (partition_base s.volume p.header.slot) p.data_end)
          (encode_block_header b ++ payload) s'.storage
      × (b.record_count ≡ s.builder_records)
      × (b.payload_crc ≡ crc32c payload)
      × IsPayload s.builder payload

  fail-Anything :
      {Good : Impl S → Type 0} (c : ErrorCode) (s : Impl S) → Outcome Good Anything (fail c s)
  unfolding fail
  fail-Anything c s = stopped tt

  after_write-Held :
      (offset : ℕ) (bs : List ℕ) (r : Status × S) (s : Impl S)
      → ((r.0 ≡ ok) → m.Holds offset bs r.1)
      → Outcome (λ s'. m.Holds offset bs s'.storage) Anything (after_write dev r s)
  unfolding fail
  after_write-Held offset bs (ok, d) s h = returned (h refl)
  after_write-Held offset bs (error c, d) s h = stopped tt

  write_frame-Held :
      (p : PartitionState) (payload : Payload) (span : ℕ) (s : Impl S)
      → (active s ≡ some p)
      → IsPayload s.builder payload.stored
      → Outcome (IsHeld s) Anything (write_frame dev p payload span s)
  unfolding write_frame write_or_fail published
  write_frame-Held p payload span s here fine =
      let b = block_of dev s p payload span in
      let offset = add64 (partition_base s.volume p.header.slot) p.data_end in
      let frame = encode_block_header b ++ payload.stored in
      chain-Outcome
        (after_write-Held offset frame (dev.write offset frame s.storage) s
          (m.write-Holds offset frame s.storage))
        (λ s' held. returned (p, b, payload.stored, here, held, refl, refl, fine))

  emit_payload-Held :
      (p : PartitionState) (payload : Payload) (s : Impl S)
      → (active s ≡ some p)
      → IsPayload s.builder payload.stored
      → Outcome (IsHeld s) Anything (emit_payload dev p payload s)
  unfolding emit_payload
  emit_payload-Held p payload s here fine =
      let span = (frame_span dev s.volume payload).0 in
      if-Outcome (too_large dev s.volume payload) (λ _. fail-Anything ErrorCode.out_of_range s)
        (λ _.
          if-Outcome (no_room dev s.volume p span) (λ _. fail-Anything ErrorCode.internal_error s)
            (λ _. write_frame-Held p payload span s here fine))

  compressed-Held :
      (p : PartitionState) (codec : CompressionCodec) (s : Impl S) (r : Result (List ℕ))
      → (active s ≡ some p)
      → (compress_builder p.header.options codec s.builder ≡ r)
      → Outcome (IsHeld s) Anything (elim r [
        | fails code ↦ fail code s
        | returns compressed ↦
            emit_payload dev p (choose_payload p.header.options codec s.builder compressed) s
      ])
  compressed-Held p codec s (fails code) here e = fail-Anything code s
  compressed-Held p codec s (returns compressed) here e =
      emit_payload-Held p _ s here (chosen-IsPayload p.header.options codec s.builder compressed e)

  emit_from-Held :
      (p : PartitionState) (s : Impl S)
      → (active s ≡ some p)
      → Outcome (IsHeld s) Anything (emit_from dev p s)
  unfolding emit_from emit_with
  emit_from-Held p s here =
      let options = p.header.options in
      option-Outcome
        (codec_for s.compression_codecs options.compression options.compression_version)
        {f = λ codec. emit_with dev p codec s} (fail-Anything ErrorCode.unsupported s)
        (λ codec _. compressed-Held p codec s _ here refl)

  -- The records of a builder that was not empty are held by the medium.
  pub emit_builder-Held :
      (s : Impl S) → Outcome (λ s'. (s.builder ≡ []) ⊎ IsHeld s s') Anything (emit_builder dev s)
  unfolding emit_builder
  emit_builder-Held s =
      if-Outcome (length s.builder == 0) (λ e. returned (inl (length_zero s.builder e)))
        (λ _.
          option-Outcome (active s) (fail-Anything ErrorCode.internal_error s)
            (λ p here. weaken-Outcome (emit_from-Held p s here) (λ a ha. inr ha) (λ c a _. tt)))

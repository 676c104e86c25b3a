-- ===== src/RecordProfile/Append.antt =====
-- `append_framed_record`.
use tfdb.Prelude.{
  ℕ, bit_and, ◌≡◌, refl, Bool, false, not, ◌||◌, List, ◌==◌, if◌then◌else◌, inl, inr, Bool-cases, ℤ,
  ap, Option, none, some, ◌++◌, same, neither,
}
use tfdb.Status.{ErrorCode, Status, ok, error, Result, returns, fails}
use tfdb.Bytes.{ByteView, bytes}
use tfdb.Format.Partition.{PartitionOptions}
use tfdb.RingStore.State.{Device, Impl, PartitionState, active}
use tfdb.RingStore.Append.{AppendContract, append_checked, breaks_contract}
use tfdb.RingStore.Contract.{Takes, append_checked-contract}
use tfdb.RingStore.Observe.{PartitionInfo, partition_info, active_partition_info}
use tfdb.RecordProfile.Frame.{framed_record_v1_profile_id, encode}

-- `kRecordFlagUnsynchronizedTime`
abbrev pub record_flag_unsynchronized_time : ℕ
record_flag_unsynchronized_time = 1

abbrev pub framed_contract : PartitionInfo → AppendContract
framed_contract active_ = record {
  record_format_id = framed_record_v1_profile_id;
  record_format_version = 1;
  time_domain_id = active_.options.time_domain_id;
}

abbrev pub not_framed : PartitionInfo → Bool
not_framed active_ =
    not (active_.options.record_format_id == framed_record_v1_profile_id)
    || not (active_.options.record_format_version == 1)

abbrev pub storage_flags : ℕ → ℕ
storage_flags flags =
    if bit_and flags record_flag_unsynchronized_time == 0
    then 0
    else record_flag_unsynchronized_time

module _ {S : Type 0} (dev : Device S) where
  -- The mutex is free between the look at the active partition and the append; `between` is what others
  -- do to the store there.
  unfoldable pub append_encoded :
      (Impl S → Impl S) → ℤ → ℕ → PartitionInfo → Result (List ℕ) → Impl S → Status × Impl S
  unfolding append_checked
  append_encoded between time flags active_ (fails code) s = (error code, s)
  append_encoded between time flags active_ (returns encoded) s =
      append_checked dev (bytes encoded) time (framed_contract active_) (storage_flags flags)
        (between s)

  unfoldable pub append_framed :
      (Impl S → Impl S) → ℤ → ℕ → ℕ → ByteView → Result PartitionInfo → Impl S → Status × Impl S
  unfolding encode append_encoded
  append_framed between time selector flags payload (fails code) s = (error code, s)
  append_framed between time selector flags payload (returns active_) s =
      if not_framed active_
      then (error ErrorCode.invalid_argument, s)
      else append_encoded between time flags active_ (encode time selector flags payload) s

  unfoldable pub append_framed_record :
      (Impl S → Impl S) → ℤ → ℕ → ℕ → ByteView → Impl S → Status × Impl S
  unfolding append_framed active_partition_info
  append_framed_record between time selector flags payload s =
      append_framed between time selector flags payload (active_partition_info s) s

  append_encoded-contract :
      (between : Impl S → Impl S) (time : ℤ) (flags : ℕ) (active_ : PartitionInfo)
      (r : Result (List ℕ)) (s : Impl S)
      → ((between s).faulted ≡ false)
      → ((append_encoded between time flags active_ r s).0 ≡ ok)
      → (encoded : List ℕ) × (r ≡ returns encoded)
        × Takes dev
            (framed_contract active_)
            encoded
            (append_encoded between time flags active_ r s).1
  unfolding append_encoded
  append_encoded-contract between time flags active_ (fails code) s sane e = absurd cc
  append_encoded-contract between time flags active_ (returns encoded) s sane e = (
    encoded,
    refl,
    append_checked-contract dev (bytes encoded) time (framed_contract active_) (storage_flags flags)
        (between s) sane e,
  )

  append_framed-contract :
      (between : Impl S → Impl S) (time : ℤ) (selector flags : ℕ) (payload : ByteView)
      (r : Result PartitionInfo) (s : Impl S)
      → ((between s).faulted ≡ false)
      → ((append_framed between time selector flags payload r s).0 ≡ ok)
      → (active_ : PartitionInfo) × (encoded : List ℕ) × (r ≡ returns active_)
        × (encode time selector flags payload ≡ returns encoded)
        × Takes dev
            (framed_contract active_)
            encoded
            (append_framed between time selector flags payload r s).1
  unfolding append_framed
  append_framed-contract between time selector flags payload (fails code) s sane e = absurd cc
  append_framed-contract between time selector flags payload (returns active_) s sane e =
      elim (Bool-cases (not_framed active_)) [
        | inl other ↦ (let wrong = rw other at e in absurd cc)
        | inr framed ↦
            (let (encoded, made, takes) =
                append_encoded-contract between time flags active_
                  (encode time selector flags payload) s sane (rw framed at e) in
              rw framed (active_, encoded, refl, made, takes))
      ]

  -- The active partition is of FramedRecordV1 records in a time domain, and the bytes end the builder.
  abbrev pub TakesFrame : ℕ → List ℕ → Impl S → Type 0
  TakesFrame time_domain_id encoded s =
      (p : PartitionState) × (active s ≡ some p)
      × (p.header.options.record_format_id ≡ framed_record_v1_profile_id)
      × (p.header.options.record_format_version ≡ 1)
      × (p.header.options.time_domain_id ≡ time_domain_id)
      × (before : List ℕ) × (s.builder ≡ before ++ encoded)

  framed-TakesFrame :
      (active_ : PartitionInfo) (encoded : List ℕ) (s : Impl S)
      → Takes dev (framed_contract active_) encoded s
      → TakesFrame active_.options.time_domain_id encoded s
  unfolding breaks_contract
  framed-TakesFrame active_ encoded s (p, here, kept, before, ends) =
      let (kept', domain) = neither kept in
      let (format, version) = neither kept' in
      (p, here, same format, same version, same domain, before, ends)

  looked_at :
      (o : Option PartitionState) (active_ : PartitionInfo)
      → ((elim o [ none ↦ fails ErrorCode.closed | some p ↦ returns (partition_info p) ])
          ≡ returns active_)
      → (p : PartitionState) × (o ≡ some p) × (active_ ≡ partition_info p)
  looked_at none active_ e = absurd cc
  looked_at (some p) active_ e = (p, refl, cc)

  active_partition_info-looked :
      (s : Impl S) (active_ : PartitionInfo)
      → (active_partition_info s ≡ returns active_)
      → (p : PartitionState) × (active s ≡ some p) × (active_ ≡ partition_info p)
  unfolding active_partition_info
  active_partition_info-looked s active_ e = looked_at (active s) active_ e

  -- If `append_framed_record` returns ok, and the store had no fault when it came to the append, then,
  -- whatever others did to the store in between, the frame that `encode` makes of the record is at the
  -- end of the builder, and the partition that is then active is of FramedRecordV1 records, version 1,
  -- in the time domain of the partition that was active when the call began.
  pub append_framed_record-contract :
      (between : Impl S → Impl S) (time : ℤ) (selector flags : ℕ) (payload : ByteView) (s : Impl S)
      → ((between s).faulted ≡ false)
      → ((append_framed_record between time selector flags payload s).0 ≡ ok)
      → (p : PartitionState) × (encoded : List ℕ) × (active s ≡ some p)
        × (encode time selector flags payload ≡ returns encoded)
        × TakesFrame p.header.options.time_domain_id encoded
            (append_framed_record between time selector flags payload s).1
  append_framed_record-contract between time selector flags payload s sane e =
      let (active_, encoded, looked, made, takes) = framed sane e in
      let (p, here, seen) = active_partition_info-looked s active_ looked in
      let found =
        framed-TakesFrame active_ encoded
          (append_framed_record between time selector flags payload s).1 takes in
      let same_domain : active_.options.time_domain_id ≡ p.header.options.time_domain_id =
        ap (λ x. PartitionOptions.time_domain_id (PartitionInfo.options x)) seen in
      (p, encoded, here, made, rw same_domain at found)
    where
      framed :
          ((between s).faulted ≡ false)
          → ((append_framed_record between time selector flags payload s).0 ≡ ok)
          → (active_ : PartitionInfo) × (encoded : List ℕ) × (active_partition_info s
              ≡ returns active_)
            × (encode time selector flags payload ≡ returns encoded)
            × Takes dev
                (framed_contract active_)
                encoded
                (append_framed_record between time selector flags payload s).1
      framed sane e =
          unfold append_framed_record in
          append_framed-contract between time selector flags payload (active_partition_info s) s
            sane e

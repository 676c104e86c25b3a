-- ===== src/RingStore/Opener/Opened.antt =====
-- What a successful `open` gives.
use tfdb.Prelude.{
  ℕ, ◌-◌, ◌^◌, ◌≡◌, refl, sym, ap, ◌∙◌, inl, inr, Bool, true, false, not, ◌&&◌, Option, none, some,
  List, [], ◌∷◌, ◌==◌, Bool-cases, length, positive,
}
use tfdb.Status.{ErrorCode, Status, Result, returns, fails}
use tfdb.Format.Volume.{VolumeHeader}
use tfdb.RingStore.State.{Device, Impl, PartitionState, active}
use tfdb.RingStore.Outcome.{Outcome, returned, stopped, if-Outcome, weaken-Outcome, both-Outcome}
use tfdb.RingStore.Rotate.{create_partition}
use tfdb.RingStore.Rotated.{create_partition-Outcome}
use tfdb.RingStore.Consistent.{IsDurable}
use tfdb.RingStore.Formatter.{Draw}
use tfdb.RingStore.Reader.Reads.{◌>>=◌}
use tfdb.RingStore.Reader.Ends.{Ends, well, badly, after-Ends, value-Ends}
use tfdb.RingStore.Opener.Headers.{read_volume}
use tfdb.RingStore.Opener.Recover.{last_partition}
use tfdb.RingStore.Opener.Assemble.{
  OpenOptions, follow, ready_active, ready, store_or_error, open_volume, choose_writer, open_as,
  open_read, open_store,
}
use tfdb.RingStore.Opener.Recovered.{IsRecovered, IsNewest, IsOpening, recover_store-Ends}
use tfdb.RingStore.Opener.Installed.{HasActive, create_partition-HasActive}

-- One that is open for reading has all that was recovered, one that is open for writing has an active
-- partition that takes blocks.
abbrev pub HasPartitions : {S : Type 0} → Bool → Impl S → Type 0
HasPartitions true s = HasActive s
HasPartitions false s = IsRecovered s

-- A store without records, consistent and with nothing to flush.
abbrev pub IsOpened : {S : Type 0} → OpenOptions → Impl S → Type 0
IsOpened o s = IsDurable 0 s × HasPartitions o.open_writable s

refuted : {t : Bool} → (not t ≡ true) → t ≡ false
refuted {t = true} e = absurd cc
refuted {t = false} e = refl

partitioned :
    {S : Type 0} {a b : Bool} (s : Impl S) → (a ≡ b) → HasPartitions a s → HasPartitions b s
partitioned s e h = rw e at h

module _ {S : Type 0} (dev : Device S) (o : OpenOptions) where
  -- The end of an open for writing.
  abbrev IsReady : Impl S → Type 0
  IsReady s = IsDurable 0 s × HasActive s

  abbrev Anything : ErrorCode → Impl S → Type 0
  Anything c s = Unit {0}

  created-IsReady :
      (slot generation : ℕ) (s : Impl S)
      → IsDurable 0 s
      → Outcome IsReady Anything (create_partition dev slot generation s.next_options s)
  created-IsReady slot generation s h =
      both-Outcome (create_partition-Outcome dev 0 slot generation s.next_options s h)
        (create_partition-HasActive dev slot generation s.next_options s)

  follow-IsReady :
      (newest : PartitionState) (s : Impl S)
      → IsDurable 0 s
      → (active s ≡ some newest)
      → Outcome IsReady Anything (follow dev newest s)
  unfolding follow
  follow-IsReady newest s h here =
      if-Outcome (not newest.sealed) (λ e. returned (h, (newest, here, refuted e)))
        (λ _.
          if-Outcome (newest.header.generation == 2 ^ 64 - 1) (λ _. stopped tt)
            (λ _. created-IsReady _ _ s h))

  ready_active-IsReady :
      (ps : List PartitionState) (s : Impl S)
      → IsDurable 0 s
      → IsNewest (active s) ps
      → Outcome IsReady Anything (ready_active dev ps s)
  unfolding ready_active
  ready_active-IsReady [] s h newest = created-IsReady 0 1 s h
  ready_active-IsReady (p ∷ ps) s h newest = follow-IsReady (last_partition p ps) s h newest

  ready-IsOpened : (s : Impl S) → IsOpening o s → Outcome (IsOpened o) Anything (ready dev s)
  unfolding ready
  ready-IsOpened s (r, h, w) =
      if-Outcome (not s.writable)
        (λ reading. returned (h, partitioned s (sym (refuted reading) ∙ w) r))
        (λ writing.
          if-Outcome (not (length s.corrupt_slots == 0)) (λ _. stopped tt)
            (λ _.
              weaken-Outcome (ready_active-IsReady s.partitions s h r.newest)
                (λ a ha. (ha.0, partitioned a (sym (positive writing) ∙ w) ha.1)) (λ c a _. tt)))

  store_or_error-Ends :
      (m : Status × Impl S)
      → Outcome (IsOpened o) Anything m
      → Ends (IsOpened o) (store_or_error dev m)
  store_or_error-Ends m (returned h) = well h
  store_or_error-Ends m (stopped h) = badly

  open_volume-Ends :
      (v : VolumeHeader) (writer_id : ℕ × ℕ) (s : S)
      → Ends (IsOpened o) (open_volume dev v o writer_id s)
  unfolding open_volume ◌>>=◌
  open_volume-Ends v writer_id s =
      after-Ends (recover_store-Ends dev v o writer_id s)
        (λ a s1 h. store_or_error-Ends (ready dev a) (ready-IsOpened a h))

  -- An open whose random draws may not have ended.
  abbrev Comes : Option (Result (Impl S) × S) → Type 0
  Comes none = Unit {0}
  Comes (some r) = Ends (IsOpened o) r

  module _ (getrandom : ℕ → S → Draw × S) where
    open_as-Comes :
        (v : VolumeHeader) (id : Option (Result (ℕ × ℕ) × S)) → Comes (open_as dev getrandom v o id)
    open_as-Comes v none = tt
    open_as-Comes v (some (fails code, s)) = badly
    open_as-Comes v (some (returns writer_id, s)) = open_volume-Ends v writer_id s

    open_read-Comes :
        (rounds : ℕ) (r : Result VolumeHeader × S) → Comes (open_read dev getrandom rounds o r)
    open_read-Comes rounds (fails code, s) = badly
    open_read-Comes rounds (returns v, s) = open_as-Comes v (choose_writer dev getrandom rounds o s)

    open_store-Comes : (rounds : ℕ) (s : S) → Comes (open_store dev getrandom rounds o s)
    unfolding open_store
    open_store-Comes rounds s = elim (Bool-cases (o.open_writable && not (dev.is_writable s))) [
      | inl e ↦ rw e badly
      | inr e ↦ rw e (open_read-Comes rounds (read_volume dev s))
    ]

    Comes-IsOpened :
        (r : Option (Result (Impl S) × S)) (m : Impl S) (s' : S)
        → Comes r
        → (r ≡ some (returns m, s'))
        → IsOpened o m
    Comes-IsOpened none m s' h e = absurd cc
    Comes-IsOpened (some (fails code, s)) m s' h e = absurd cc
    Comes-IsOpened (some (returns a, s)) m s' h e =
        let same : a ≡ m = cc in value-Ends h (ap returns same)

    -- If `open` returns a store, whatever the backend holds, then the store is consistent, has an empty
    -- builder, no records and nothing to flush. If it is open for reading, its partitions are in the
    -- strict order of their generations, none of which is zero, all but the last are sealed or keep no
    -- index, and the last one, if any, is the active partition. If it is open for writing, it has an
    -- active partition, and that one is not sealed.
    pub open_store-IsOpened :
        (rounds : ℕ) (s s' : S) (m : Impl S)
        → (open_store dev getrandom rounds o s ≡ some (returns m, s'))
        → IsOpened o m
    open_store-IsOpened rounds s s' m e =
        Comes-IsOpened (open_store dev getrandom rounds o s) m s' (open_store-Comes rounds s) e

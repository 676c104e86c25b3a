-- ===== src/RingStore/Effects.antt =====
-- What a flush, a write and a block do to the invariants.
use tfdb.Prelude.{ℕ, refl, ◌∙◌, inl, inr, true, false, List, Bool-cases}
use tfdb.Status.{ErrorCode, Status, ok, error}
use tfdb.RingStore.Outcome.{Outcome, returned, stopped}
use tfdb.RingStore.State.{Device, Impl, fail}
use tfdb.RingStore.Media.{
  record_sync, sync_failed, count_sync_error, settle_undurable, advance_durability, after_sync,
  sync_media,
}
use tfdb.RingStore.Rotate.{write_or_fail, after_write}
use tfdb.RingStore.Consistent.{IsConsistent, IsDrained, IsDurable, IsFaulted}

module _ {S : Type 0} where
  pub fail-IsFaulted : (c : ErrorCode) (s : Impl S) → IsConsistent s → IsFaulted c (fail c s).1
  unfolding fail
  fail-IsFaulted c s (a, l, (m1, m2, m3, m4, m6, m7, m8, m9, m10)) =
      ((a, (λ _. refl), (m1, refl, refl, m4, m6, m7, m8, m9, m10)), refl, refl)

  module _ (dev : Device S) where
    after_write-Outcome :
        {Good : Impl S → Type 0} {Bad : ErrorCode → Impl S → Type 0} (r : Status × S) (s : Impl S)
        → ((d : S) → Good (record s { storage = d }))
        → ((c : ErrorCode) (d : S) → Bad c (fail c (record s { storage = d })).1)
        → Outcome Good Bad (after_write dev r s)
    unfolding fail
    after_write-Outcome (ok, d) s good bad = returned (good d)
    after_write-Outcome (error c, d) s good bad = stopped (bad c d)

    -- The storage is the only part of the state that a write that succeeds changes.
    pub write_or_fail-Outcome :
        {Good : Impl S → Type 0} {Bad : ErrorCode → Impl S → Type 0} (offset : ℕ) (bs : List ℕ)
        (s : Impl S)
        → ((d : S) → Good (record s { storage = d }))
        → ((c : ErrorCode) (d : S) → Bad c (fail c (record s { storage = d })).1)
        → Outcome Good Bad (write_or_fail dev offset bs s)
    unfolding write_or_fail
    write_or_fail-Outcome offset bs s good bad =
        after_write-Outcome (dev.write offset bs s.storage) s good bad

    pub sync_failed-IsFaulted :
        (c : ErrorCode) (s : Impl S) → IsConsistent s → IsFaulted c (sync_failed dev c s).1
    unfolding sync_failed
    sync_failed-IsFaulted c s (a, l, (m1, m2, m3, m4, m6, m7, m8, m9, m10)) =
        fail-IsFaulted c (count_sync_error dev s) (a, l, (m1, m2, m3, m4, m6, m7, m8, refl, m10))

    record_sync-IsConsistent :
        (elapsed : ℕ) (s : Impl S) → IsConsistent s → IsConsistent (record_sync dev elapsed s)
    unfolding record_sync
    record_sync-IsConsistent elapsed s (a, l, (m1, m2, m3, m4, m6, m7, m8, m9, m10)) =
        (a, l, (m1, m2, m3, m4, refl, refl, refl, m9, m10))

    advance_durability-IsDurable :
        (n : ℕ) (s : Impl S) → IsDrained n s → IsDurable n (advance_durability dev s)
    unfolding advance_durability settle_undurable
    advance_durability-IsDurable n s (((u, d), l, (m1, m2, m3, m4, m6, m7, m8, m9, m10)), b, acc) =
        elim (Bool-cases s.have_undurable_records) [
          | inl e ↦
              rw (e, b)
                (
                  (
                    ((refl, λ _. (refl, refl)), l, (m1, m2, m3, refl, m6, m7, m8, m9, refl)),
                    refl,
                    acc,
                  ),
                  refl,
                )
          | inr e ↦
              rw (e, b)
                (
                  (
                    ((refl, λ _. (refl, refl)), l, (m1, m2, m3, m4 ∙ e, m6, m7, m8, m9, refl)),
                    refl,
                    acc,
                  ),
                  refl,
                )
        ]

    record_sync-IsDrained :
        (n elapsed : ℕ) (s : Impl S) → IsDrained n s → IsDrained n (record_sync dev elapsed s)
    unfolding record_sync
    record_sync-IsDrained n elapsed s h = (record_sync-IsConsistent elapsed s h.0, h.1, h.2)

    after_plain_sync-IsDurable :
        (n : ℕ) (status : Status) (s : Impl S)
        → IsDurable n s
        → Outcome (IsDurable n) IsFaulted (after_sync dev false status s)
    unfolding sync_failed fail
    after_plain_sync-IsDurable n ok s h = returned h
    after_plain_sync-IsDurable n (error c) s h = stopped (sync_failed-IsFaulted c s h.0.0)

    after_checkpoint-IsDurable :
        (n : ℕ) (status : Status) (s : Impl S)
        → IsDrained n s
        → Outcome (IsDurable n) IsFaulted (after_sync dev true status s)
    unfolding sync_failed fail
    after_checkpoint-IsDurable n ok s h = returned (advance_durability-IsDurable n s h)
    after_checkpoint-IsDurable n (error c) s h = stopped (sync_failed-IsFaulted c s h.0)

    -- A flush that is not a checkpoint.
    pub sync_media-IsDurable :
        (n : ℕ) (s : Impl S)
        → IsDurable n s
        → Outcome (IsDurable n) IsFaulted (sync_media dev false s)
    unfolding sync_media record_sync
    sync_media-IsDurable n s h =
        after_plain_sync-IsDurable n _ _
          (record_sync-IsDrained n _ (record s { storage = (dev.flush s.storage).1 }) h.0, h.1)

    -- A checkpoint of a store whose builder is empty.
    pub sync_media-IsDrained :
        (n : ℕ) (s : Impl S)
        → IsDrained n s
        → Outcome (IsDurable n) IsFaulted (sync_media dev true s)
    unfolding sync_media
    sync_media-IsDrained n s h =
        after_checkpoint-IsDurable n _ _
          (record_sync-IsDrained n _ (record s { storage = (dev.flush s.storage).1 }) h)

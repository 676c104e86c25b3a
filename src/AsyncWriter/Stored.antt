-- ===== src/AsyncWriter/Stored.antt =====
-- The store behind the asynchronous writer in an execution: what was appended to it, and what a confirmed
-- checkpoint has made durable.
use tfdb.Prelude.{
  ℕ, ◌+◌, ◌≡◌, refl, ap, ◌∙◌, ◌⊎◌, inl, inr, Bool, true, false, ◌&&◌, Option, none, some, List, [],
  ◌∷◌, arith, ltb, Bool-cases,
}
use tfdb.Status.{Status, ok}
use tfdb.Bytes.{bytes}
use tfdb.RingStore.State.{Device, Impl, add64}
use tfdb.RingStore.Append.{append, checkpoint}
use tfdb.RingStore.Outcome.{
  Outcome, returned, stopped, both-Outcome, option-Outcome, weaken-Outcome,
}
use tfdb.RingStore.Medium.{Medium}
use tfdb.RingStore.Consistent.{IsDurable}
use tfdb.RingStore.Rotated.{Counts}
use tfdb.RingStore.Accepted.{append_impl-Outcome}
use tfdb.RingStore.Invariant.{append_checked-Outcome, checkpoint-Outcome}
use tfdb.RingStore.Flushed.{IsSafe, IsStill, Safely}
use tfdb.RingStore.Safety.{append_impl-Safe, append_checked-Safe}
use tfdb.RingStore.Durable.{checkpoint-Still}
use tfdb.AsyncWriter.State.{Item, AsyncWriter, Thread, unstarted, waiting, finished, holding, Work}
use tfdb.AsyncWriter.Thread.{
  do_work, store_item, finish_work, fail_background, settle_oldest, complete_barrier, leave,
  take_work, wants_checkpoint, dequeue,
}
use tfdb.AsyncWriter.Steps.{with_store, take_if_waiting, complete_held}
use tfdb.AsyncWriter.Order.{IsNext, IsOrdered, held}
use tfdb.AsyncWriter.Barrier.{IsDead}

-- A held checkpoint comes without an item.
abbrev pub IsApart : Thread → Type 0
IsApart (holding work) = (work.do_checkpoint ≡ true) → work.item ≡ none
IsApart thread = Unit {0}

add64_suc : (a b c : ℕ) → (c ≡ b + 1) → add64 (add64 a b) 1 ≡ add64 a c
add64_suc a b c e = ground arith

module _ {S : Type 0} (dev : Device S) (m : Medium dev) (accepted : ℕ) where
  -- Of `accepted` records at the start and `processed` more, the store has accepted all.
  abbrev pub HasAccepted : ℕ → Impl S → Type 0
  HasAccepted processed s = Counts dev (add64 accepted processed) s × IsSafe dev m s

  abbrev pub IsStored : AsyncWriter S → Type 0
  IsStored a = HasAccepted a.processed_sequence a.store × IsApart a.thread

  -- The barrier is what was just processed, and all of it is durable.
  abbrev pub IsConfirmed : AsyncWriter S → Type 0
  IsConfirmed a =
      (a.completed_barrier ≡ a.processed_sequence)
      × m.IsFlushed a.store.storage
      × IsDurable (add64 accepted a.processed_sequence) a.store

  abbrev pub Moves : AsyncWriter S → AsyncWriter S → Type 0
  Moves a b = (b.completed_barrier ≡ a.completed_barrier) ⊎ IsConfirmed b

  abbrev pub Goes : AsyncWriter S → AsyncWriter S → Type 0
  Goes a b = (IsStored b × Moves a b) ⊎ IsDead dev b

  append-Accepted :
      (item : Item) (processed : ℕ) (s : Impl S)
      → (item.sequence ≡ processed + 1)
      → HasAccepted processed s
      → Outcome (HasAccepted item.sequence) (Safely dev m) (store_item dev (some item) s)
  unfolding append
  append-Accepted item processed s e ((h, n), safe) =
      option-Outcome item.contract
        (weaken-Outcome
          (both-Outcome
            (append_impl-Outcome dev (bytes item.item_bytes) item.time_ns item.flags none s h)
            (append_impl-Safe dev m (bytes item.item_bytes) item.time_ns item.flags none s safe))
          (λ a ha. ((ha.0.0, ha.0.1 ∙ sum), ha.1)) (λ c a ha. ha))
        (λ expected _.
          weaken-Outcome
            (both-Outcome
              (append_checked-Outcome dev (bytes item.item_bytes) item.time_ns expected item.flags s
                h)
              (append_checked-Safe dev m (bytes item.item_bytes) item.time_ns expected item.flags s
                safe))
            (λ a ha. ((ha.0.0, ha.0.1 ∙ sum), ha.1)) (λ c a ha. ha))
    where
      sum : add64 s.metrics.accepted_records 1 ≡ add64 accepted item.sequence
      sum = ap (λ k. add64 k 1) n ∙ add64_suc accepted processed item.sequence e

  settle_oldest-same :
      (durable_at : ℕ) (a : AsyncWriter S)
      → ((settle_oldest dev durable_at a).store ≡ a.store)
        × ((settle_oldest dev durable_at a).processed_sequence ≡ a.processed_sequence)
  settle_oldest-same durable_at a =
      elim (Bool-cases
        (ltb a.async_metrics.durable_sequence a.processed_sequence && a.have_oldest_undurable)) [
          | inl e ↦ rw e (refl, refl)
          | inr e ↦ rw e (refl, refl)
        ]

  leave-Goes :
      (exits : Bool) (a b : AsyncWriter S)
      → HasAccepted b.processed_sequence b.store
      → Moves a b
      → Goes a (leave dev exits b)
  leave-Goes true a b h moves = inl ((h, tt), moves)
  leave-Goes false a b h moves = inl ((h, tt), moves)

  confirmed-Goes :
      (exits : Bool) (durable_at : ℕ) (a b : AsyncWriter S)
      → IsStill dev m b.store
      → IsDurable (add64 accepted b.processed_sequence) b.store
      → Goes a (leave dev exits (complete_barrier dev durable_at b))
  unfolding complete_barrier
  confirmed-Goes exits durable_at a b still durable =
      let (same_store, same_count) = settle_oldest-same durable_at b in
      leave-Goes exits a (complete_barrier dev durable_at b)
        (rw (same_store, same_count) ((durable.0.0, durable.0.2), inr (inr still)))
        (inr (rw (same_store, same_count) (refl, still, durable)))

  -- The second critical section, after an item, a checkpoint, or nothing.
  finished_item-Goes :
      (work : Work) (item : Item) (durable_at : ℕ) (a : AsyncWriter S) (r : Status × Impl S)
      → (work.item ≡ some item)
      → (work.do_checkpoint ≡ false)
      → Outcome (HasAccepted item.sequence) (Safely dev m) r
      → Goes a (finish_work dev work r.0 durable_at (with_store dev r.1 a))
  unfolding finish_work fail_background
  finished_item-Goes work item durable_at a _ e f (returned h) =
      rw (e, f) (leave-Goes work.exit_after_checkpoint a _ h (inl refl))
  finished_item-Goes work item durable_at a _ e f (stopped h) = inr (refl, refl)

  finished_checkpoint-Goes :
      (work : Work) (durable_at : ℕ) (a : AsyncWriter S) (r : Status × Impl S)
      → (work.item ≡ none)
      → (work.do_checkpoint ≡ true)
      → Outcome
          (λ s. IsDurable (add64 accepted a.processed_sequence) s × IsStill dev m s)
          (λ _ _. Unit {0})
          r
      → Goes a (finish_work dev work r.0 durable_at (with_store dev r.1 a))
  unfolding finish_work fail_background
  finished_checkpoint-Goes work durable_at a _ e f (returned (durable, still)) =
      rw (e, f)
        (confirmed-Goes work.exit_after_checkpoint durable_at a (with_store dev _ a) still durable)
  finished_checkpoint-Goes work durable_at a _ e f (stopped h) = inr (refl, refl)

  finished_nothing-Goes :
      (work : Work) (durable_at : ℕ) (a : AsyncWriter S)
      → (work.item ≡ none)
      → (work.do_checkpoint ≡ false)
      → HasAccepted a.processed_sequence a.store
      → Goes a (finish_work dev work ok durable_at a)
  unfolding finish_work
  finished_nothing-Goes work durable_at a e f h =
      rw (e, f) (leave-Goes work.exit_after_checkpoint a a h (inl refl))

  do_work-checkpoint :
      (work : Work) (s : Impl S)
      → (work.do_checkpoint ≡ true)
      → do_work dev work s ≡ checkpoint dev s
  unfolding do_work
  do_work-checkpoint work s f = rw f refl

  do_work-store_item :
      (work : Work) (s : Impl S) (o : Option Item)
      → (work.item ≡ o)
      → (work.do_checkpoint ≡ false)
      → do_work dev work s ≡ store_item dev o s
  unfolding do_work
  do_work-store_item work s o e f = rw (f, e) refl

  worked-Goes :
      (work : Work) (o : Option Item) (durable_at first : ℕ) (a : AsyncWriter S)
      → (work.item ≡ o)
      → IsNext a.processed_sequence first o
      → ((work.do_checkpoint ≡ true) → o ≡ none)
      → HasAccepted a.processed_sequence a.store
      → Goes a (
          finish_work dev work
            (do_work dev work a.store).0
            durable_at
            (with_store dev (do_work dev work a.store).1 a))
  worked-Goes work none durable_at first a e next apart ((h, n), safe) =
      elim (Bool-cases work.do_checkpoint) [
        | inl f ↦ rw (do_work-checkpoint work a.store f) (
            finished_checkpoint-Goes work durable_at a (checkpoint dev a.store) e f (
              both-Outcome
                (weaken-Outcome (checkpoint-Outcome dev a.store h)
                  (λ s d. ((d.0.0, d.0.1, d.0.2 ∙ n), d.1)) (λ c s d. d))
                (checkpoint-Still dev m a.store h safe)))
        | inr f ↦
            rw (do_work-store_item work a.store none e f)
              (finished_nothing-Goes work durable_at a e f ((h, n), safe))
      ]
  worked-Goes work (some item) durable_at first a e next apart h =
      elim (Bool-cases work.do_checkpoint) [
        | inl f ↦ (let wrong = apart f in absurd cc)
        | inr f ↦ rw (do_work-store_item work a.store (some item) e f) (
            finished_item-Goes work item durable_at a (store_item dev (some item) a.store) e f
              (append-Accepted item a.processed_sequence a.store next.0 h))
      ]

  pub completed-Goes :
      (limit : ℕ) (thread : Thread) (durable_at : ℕ) (a : AsyncWriter S)
      → (a.thread ≡ thread)
      → IsOrdered limit a
      → IsStored a
      → Goes a (complete_held dev thread durable_at a)
  completed-Goes limit unstarted durable_at a at o h = inl (h, inl refl)
  completed-Goes limit waiting durable_at a at o h = inl (h, inl refl)
  completed-Goes limit finished durable_at a at o h = inl (h, inl refl)
  completed-Goes limit (holding work) durable_at a at o (h, apart) =
      worked-Goes work work.item durable_at o.first a refl (rw (ap held at) at o.held_next)
        (rw at at apart) h

  dequeue-Goes :
      (dequeued_at : ℕ) (items : List Item) (a : AsyncWriter S)
      → IsStored a
      → Goes a (dequeue dev dequeued_at items a)
  dequeue-Goes dequeued_at [] a (h, _) = inl ((h, λ _. refl), inl refl)
  dequeue-Goes dequeued_at (item ∷ items) a (h, _) = inl ((h, λ e. absurd cc), inl refl)

  take_work-Goes :
      (now dequeued_at : ℕ) (a : AsyncWriter S)
      → IsStored a
      → Goes a (take_work dev now dequeued_at a)
  unfolding take_work
  take_work-Goes now dequeued_at a h = elim (Bool-cases (wants_checkpoint dev now a)) [
    | inl e ↦ rw e (inl ((h.0, λ _. refl), inl refl))
    | inr e ↦ rw e (dequeue-Goes dequeued_at a.queue a h)
  ]

  pub taken-Goes :
      (thread : Thread) (now dequeued_at : ℕ) (a : AsyncWriter S)
      → IsStored a
      → Goes a (take_if_waiting dev thread now dequeued_at a)
  taken-Goes unstarted now dequeued_at a h = inl (h, inl refl)
  taken-Goes waiting now dequeued_at a h = take_work-Goes now dequeued_at a h
  taken-Goes finished now dequeued_at a h = inl (h, inl refl)
  taken-Goes (holding work) now dequeued_at a h = inl (h, inl refl)

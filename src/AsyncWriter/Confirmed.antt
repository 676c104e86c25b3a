-- ===== src/AsyncWriter/Confirmed.antt =====
-- What the answer ok of `AsyncWriter::checkpoint` says of the store.
use tfdb.Prelude.{
  ℕ, ◌+◌, ◌^◌, ◌≤◌, ◌<◌, ◌≡◌, refl, ap, ◌∙◌, ◌⊎◌, inl, inr, true, false, not, ◌||◌, Option, some,
  List, [], ◌∷◌, ◌++◌, arith, Bool-cases, length, ℤ,
}
use tfdb.Status.{ok, is_ok}
use tfdb.Bytes.{ByteView, empty, valid, size}
use tfdb.RingStore.State.{Device, add64}
use tfdb.RingStore.Append.{AppendContract}
use tfdb.RingStore.Outcome.{returned, stopped, if-Outcome, status-Outcome, always-Outcome}
use tfdb.RingStore.Medium.{Medium}
use tfdb.RingStore.Consistent.{IsConsistent}
use tfdb.RingStore.Flushed.{IsSafe}
use tfdb.AsyncWriter.State.{AsyncWriter, Thread, unstarted, waiting, finished, holding}
use tfdb.AsyncWriter.Client.{submit_impl, enqueue, queue_full, request_checkpoint, request_stop}
use tfdb.AsyncWriter.Steps.{
  Action, submits, asks_checkpoint, asks_stop, takes, completes, perform, take_if_waiting,
  complete_held,
}
use tfdb.AsyncWriter.Order.{IsOrdered}
use tfdb.AsyncWriter.Barrier.{IsDead}
use tfdb.AsyncWriter.Stored.{IsStored, IsConfirmed, Moves, Goes, completed-Goes, taken-Goes}
use tfdb.AsyncWriter.Barrier.{IsDead, perform-IsSafe, confirmed, launch-IsOrdered}
use tfdb.RingStore.Invariant.{settled}
use tfdb.AsyncWriter.Client.{launch, answer_checkpoint}
use tfdb.AsyncWriter.Steps.{perform_all}

module _ {S : Type 0} (dev : Device S) (m : Medium dev) where
  module _ (accepted : ℕ) where
    -- What a client does leaves the store and what was processed as they are.
    submit-Goes :
        (view : ByteView) (time : ℤ) (flags : ℕ) (expected : Option AppendContract) (now : ℕ)
        (a : AsyncWriter S)
        → IsStored dev m accepted a
        → Goes dev m accepted a (submit_impl view time flags expected now a).1
    unfolding submit_impl enqueue
    submit-Goes view time flags expected now a h =
        let same : Goes dev m accepted a a = inl (h, inl refl) in
        always-Outcome {Good = λ b. Goes dev m accepted a b} (
          if-Outcome (not (is_ok a.background_status))
            (λ _. status-Outcome a.background_status same (λ c. same))
            (λ _.
              if-Outcome (not a.running || a.stopping) (λ _. stopped same)
                (λ _.
                  if-Outcome (empty view) (λ _. stopped same)
                    (λ _.
                      if-Outcome (not (valid view)) (λ _. stopped same)
                        (λ _.
                          if-Outcome (queue_full a (size view)) (λ _. stopped (inl (h, inl refl)))
                            (λ _. returned (inl (h, inl refl))))))))

    requested-Goes :
        (a : AsyncWriter S)
        → IsStored dev m accepted a
        → Goes dev m accepted a (request_checkpoint a).1
    unfolding request_checkpoint
    requested-Goes a h =
        let same : Goes dev m accepted a a = inl (h, inl refl) in
        always-Outcome {Good = λ b. Goes dev m accepted a b} (
          if-Outcome (not (is_ok a.background_status))
            (λ _. status-Outcome a.background_status same (λ c. same))
            (λ _.
              if-Outcome (not a.running) (λ _. stopped same) (λ _. returned (inl (h, inl refl)))))

    stop-Goes :
        (a : AsyncWriter S) → IsStored dev m accepted a → Goes dev m accepted a (request_stop a)
    unfolding request_stop
    stop-Goes a h = elim (Bool-cases a.running) [
      | inl e ↦ rw e (inl (h, inl refl))
      | inr e ↦ rw e (inl (h, inl refl))
    ]

    -- Every action, of an ordered writer whose store has accepted what was processed.
    perform-Goes :
        (limit : ℕ) (action : Action) (a : AsyncWriter S)
        → IsOrdered limit a
        → IsStored dev m accepted a
        → Goes dev m accepted a (perform dev action a)
    unfolding perform
    perform-Goes limit (submits view time flags expected now) a o h =
        submit-Goes view time flags expected now a h
    perform-Goes limit asks_checkpoint a o h = requested-Goes a h
    perform-Goes limit asks_stop a o h = stop-Goes a h
    perform-Goes limit (takes now dequeued_at) a o h =
        taken-Goes dev m accepted a.thread now dequeued_at a h
    perform-Goes limit (completes durable_at) a o h =
        completed-Goes dev m accepted limit a.thread durable_at a refl o h

    submit-IsDead :
        (view : ByteView) (time : ℤ) (flags : ℕ) (expected : Option AppendContract) (now : ℕ)
        (a : AsyncWriter S)
        → IsDead dev a
        → IsDead dev (submit_impl view time flags expected now a).1
    unfolding submit_impl
    submit-IsDead view time flags expected now a (gone, bad) = rw bad (gone, bad)

    request-IsDead : (a : AsyncWriter S) → IsDead dev a → IsDead dev (request_checkpoint a).1
    unfolding request_checkpoint
    request-IsDead a (gone, bad) = rw bad (gone, bad)

    stop-IsDead : (a : AsyncWriter S) → IsDead dev a → IsDead dev (request_stop a)
    unfolding request_stop
    stop-IsDead a (gone, bad) = elim (Bool-cases a.running) [
      | inl e ↦ rw e (gone, bad)
      | inr e ↦ rw e (gone, bad)
    ]

    taken-IsDead :
        (thread : Thread) (now dequeued_at : ℕ) (a : AsyncWriter S)
        → (thread ≡ finished)
        → IsDead dev a
        → IsDead dev (take_if_waiting dev thread now dequeued_at a)
    taken-IsDead finished now dequeued_at a e h = h
    taken-IsDead unstarted now dequeued_at a e h = h
    taken-IsDead waiting now dequeued_at a e h = absurd cc
    taken-IsDead (holding work) now dequeued_at a e h = h

    completed-IsDead :
        (thread : Thread) (durable_at : ℕ) (a : AsyncWriter S)
        → (thread ≡ finished)
        → IsDead dev a
        → IsDead dev (complete_held dev thread durable_at a)
    completed-IsDead finished durable_at a e h = h
    completed-IsDead unstarted durable_at a e h = h
    completed-IsDead waiting durable_at a e h = h
    completed-IsDead (holding work) durable_at a e h = absurd cc

    perform-IsDead :
        (action : Action) (a : AsyncWriter S) → IsDead dev a → IsDead dev (perform dev action a)
    unfolding perform
    perform-IsDead (submits view time flags expected now) a h =
        submit-IsDead view time flags expected now a h
    perform-IsDead asks_checkpoint a h = request-IsDead a h
    perform-IsDead asks_stop a h = stop-IsDead a h
    perform-IsDead (takes now dequeued_at) a h = taken-IsDead a.thread now dequeued_at a h.0 h
    perform-IsDead (completes durable_at) a h = completed-IsDead a.thread durable_at a h.0 h

    all_dead :
        (actions : List Action) (a : AsyncWriter S)
        → IsDead dev a
        → is_ok (perform_all dev actions a).background_status ≡ false
    unfolding perform_all
    all_dead [] a h = h.1
    all_dead (action ∷ actions) a h =
        all_dead actions (perform dev action a) (perform-IsDead action a h)

    -- The barrier did not move, or after some of the actions it was confirmed.
    abbrev Confirms : ℕ → List Action → AsyncWriter S → Type 0
    Confirms completed actions a =
        (completed ≡ a.completed_barrier)
        ⊎ ((done later : List Action) × (actions ≡ done ++ later)
            × (completed ≡ (perform_all dev done a).completed_barrier)
            × IsConfirmed dev m accepted (perform_all dev done a))

    after-Confirms :
        (completed : ℕ) (action : Action) (actions : List Action) (a : AsyncWriter S)
        → Moves dev m accepted a (perform dev action a)
        → Confirms completed actions (perform dev action a)
        → Confirms completed (action ∷ actions) a
    unfolding perform_all
    after-Confirms completed action actions a (inl stays) (inl e) = inl (e ∙ stays)
    after-Confirms completed action actions a (inr now_) (inl e) =
        inr (action ∷ [], actions, refl, e, now_)
    after-Confirms completed action actions a moves (inr (done, later, e, f, h)) =
        inr (action ∷ done, later, ap (λ xs. action ∷ xs) e, f, h)

    perform_all-Confirms :
        (limit : ℕ) (actions : List Action) (a : AsyncWriter S)
        → limit + length actions < 2 ^ 64
        → IsOrdered limit a
        → IsStored dev m accepted a
        → (is_ok (perform_all dev actions a).background_status ≡ true)
        → Confirms (perform_all dev actions a).completed_barrier actions a
    unfolding perform_all
    perform_all-Confirms limit [] a small o h fine = inl refl
    perform_all-Confirms limit (action ∷ actions) a small o h fine =
        elim (perform-IsSafe dev limit action a (omega (arith, small)) (inl o)) [
          | inr dead ↦ (let bad = all_dead actions (perform dev action a) dead in absurd cc)
          | inl o' ↦ elim (perform-Goes limit action a o h) [
            | inr dead ↦ (let bad = all_dead actions (perform dev action a) dead in absurd cc)
            | inl (h', moves) ↦ after-Confirms _ action actions a moves (
                perform_all-Confirms (limit + 1) actions (perform dev action a)
                  (omega (arith, small)) o' h' fine)
          ]
        ]

  -- After some of the actions, as many records as the target says were processed, the backend is flushed,
  -- and the store, with an empty builder, counts as durable those and the records it had accepted before.
  abbrev pub IsDurableAfter : ℕ → ℕ → List Action → AsyncWriter S → Type 0
  IsDurableAfter accepted target actions a =
      (done later : List Action) × (actions ≡ done ++ later)
      × (target ≤ (perform_all dev done a).processed_sequence)
      × m.IsFlushed (perform_all dev done a).store.storage
      × ((perform_all dev done a).store.builder ≡ [])
      × ((perform_all dev done a).store.metrics.durable_records
          ≡ add64 accepted (perform_all dev done a).processed_sequence)

  whole : (n : ℕ) → n < 2 ^ 64 → n ≡ add64 n 0
  whole n h = ground arith

  reached-IsDurableAfter :
      (accepted target completed : ℕ) (actions : List Action) (a : AsyncWriter S)
      → (a.completed_barrier ≡ 0)
      → target ≤ completed
      → 0 < target
      → Confirms accepted completed actions a
      → IsDurableAfter accepted target actions a
  reached-IsDurableAfter accepted target completed actions a none_ reached some_ (inl e) =
      absurd (omega (arith, none_, reached, some_, e))
  reached-IsDurableAfter accepted target completed actions a none_ reached some_
        (inr (done, later, split_, e, (f, flushed, durable))) =
      let (emptied, _, _, counted, _) = settled dev _ (perform_all dev done a).store durable in
      (done, later, split_, omega (arith, reached, e, f), flushed, emptied, counted)

  -- The answer ok to a checkpoint for a target above 0, in an execution of fewer than 2 ^ 64 actions
  -- after `launch`, means that after some of the actions the store was durable: the records up to the
  -- target had been processed, the backend was flushed, the builder empty, and the store counted as
  -- durable all processed records and those it had accepted before, whose number is a 64-bit one. At
  -- the launch the store is consistent, and it is faulted or dirty or else has a flushed backend.
  pub answer_checkpoint-durable :
      (now target : ℕ) (actions : List Action) (a : AsyncWriter S)
      → 0 < target
      → a.options.queue_capacity_bytes < 2 ^ 64
      → length actions < 2 ^ 64
      → a.store.metrics.accepted_records < 2 ^ 64
      → IsConsistent a.store
      → IsSafe dev m a.store
      → (answer_checkpoint target (perform_all dev actions (launch now a)) ≡ some ok)
      → IsDurableAfter a.store.metrics.accepted_records target actions (launch now a)
  answer_checkpoint-durable now target actions a some_ small few counted h safe e =
      let n = a.store.metrics.accepted_records in
      let (fine, reached) = confirmed dev target (perform_all dev actions (launch now a)) e in
      reached-IsDurableAfter n target _ actions (launch now a) (unfold launch in refl) reached some_
        (perform_all-Confirms n 0 actions (launch now a) (omega (arith, few))
          (launch-IsOrdered dev now a small) (unfold launch in (((h, whole n counted), safe), tt))
          fine)

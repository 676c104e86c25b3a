-- ===== src/AsyncWriter/Barrier.antt =====
-- Executions of the asynchronous writer from `launch` on: its queue and its barrier.
use tfdb.Prelude.{
  lt_or_ge, ℕ, suc, ◌+◌, ◌^◌, ◌≤◌, ◌<◌, ◌≡◌, refl, ◌⊎◌, inl, inr, Bool, true, false, not, ◌||◌,
  Option, none, some, List, [], ◌∷◌, arith, ltb, leb, if◌then◌else◌, Bool-cases, length, ℤ,
}
use tfdb.Status.{ErrorCode, Status, ok, error, is_ok}
use tfdb.Bytes.{ByteView}
use tfdb.RingStore.State.{Device}
use tfdb.RingStore.Append.{AppendContract}
use tfdb.RingStore.Outcome.{returned, stopped, if-Outcome, status-Outcome, always-Outcome}
use tfdb.AsyncWriter.State.{AsyncWriter, Thread, unstarted, waiting, finished, holding, Work}
use tfdb.AsyncWriter.Client.{
  submit_impl, request_checkpoint, request_stop, launch, answer_checkpoint,
}
use tfdb.AsyncWriter.Thread.{do_work, finish_work, fail_background}
use tfdb.AsyncWriter.Steps.{
  Action, submits, asks_checkpoint, asks_stop, takes, completes, perform, perform_all, with_store,
  take_if_waiting, complete_held,
}
use tfdb.AsyncWriter.Order.{IsOrdered, raise_limit}
use tfdb.AsyncWriter.Ordered.{submit_impl-IsOrdered, take_work-IsOrdered, finish_work-IsOrdered}

plus_zero : (n : ℕ) → n + 0 ≡ n
plus_zero n = omega arith

confirmed_status :
    (status : Status) (running : Bool) (target completed : ℕ)
    → ((if not (leb target completed || not (is_ok status) || not running)
          then none
          else if not (is_ok status)
          then some status
          else if ltb completed target
          then some (error ErrorCode.closed)
          else some ok)
        ≡ some ok)
    → (is_ok status ≡ true) × (target ≤ completed)
confirmed_status ok running target completed e = elim (lt_or_ge completed target) [
  | inr reached ↦ (refl, reached)
  | inl late ↦ absurd (ground arith)
]
confirmed_status (error c) running target completed e =
    elim (Bool-cases (leb target completed || true || not running)) [
      | inl t ↦ absurd (ground arith)
      | inr t ↦ absurd (ground arith)
    ]

zero_plus : (n : ℕ) → 0 + n ≡ n
zero_plus n = omega arith

plus_suc : (n m : ℕ) → n + suc m ≡ n + 1 + m
plus_suc n m = omega arith

module _ {S : Type 0} (dev : Device S) where
  -- After a failure the thread has ended, and nothing is confirmed any more.
  abbrev pub IsDead : AsyncWriter S → Type 0
  IsDead a = (a.thread ≡ finished) × (is_ok a.background_status ≡ false)

  abbrev pub IsSafe : ℕ → AsyncWriter S → Type 0
  IsSafe limit a = IsOrdered limit a ⊎ IsDead a

  finished-IsSafe :
      (limit : ℕ) (work : Work) (status : Status) (durable_at : ℕ) (a : AsyncWriter S)
      → (a.thread ≡ holding work)
      → IsSafe limit a
      → IsSafe limit (finish_work dev work status durable_at a)
  unfolding finish_work fail_background
  finished-IsSafe limit work ok durable_at a at (inl h) =
      inl (finish_work-IsOrdered dev limit work durable_at a at h)
  finished-IsSafe limit work ok durable_at a at (inr h) = absurd (let (gone, bad) = h in cc)
  finished-IsSafe limit work (error c) durable_at a at h = inr (refl, refl)

  completed-IsSafe :
      (limit : ℕ) (thread : Thread) (durable_at : ℕ) (a : AsyncWriter S)
      → (a.thread ≡ thread)
      → IsSafe limit a
      → IsSafe limit (complete_held dev thread durable_at a)
  completed-IsSafe limit unstarted durable_at a at h = h
  completed-IsSafe limit waiting durable_at a at h = h
  completed-IsSafe limit finished durable_at a at h = h
  completed-IsSafe limit (holding work) durable_at a at h =
      finished-IsSafe limit work _ durable_at (with_store dev (do_work dev work a.store).1 a) at h

  taken-IsSafe :
      (limit : ℕ) (thread : Thread) (now dequeued_at : ℕ) (a : AsyncWriter S)
      → (a.thread ≡ thread)
      → IsSafe limit a
      → IsSafe limit (take_if_waiting dev thread now dequeued_at a)
  taken-IsSafe limit unstarted now dequeued_at a at h = h
  taken-IsSafe limit waiting now dequeued_at a at (inl h) =
      inl (take_work-IsOrdered dev limit now dequeued_at a at h)
  taken-IsSafe limit waiting now dequeued_at a at (inr h) = absurd (let (gone, bad) = h in cc)
  taken-IsSafe limit finished now dequeued_at a at h = h
  taken-IsSafe limit (holding work) now dequeued_at a at h = h

  -- The flags and the requested barrier are no part of the order.
  requested-IsSafe :
      (limit : ℕ) (a : AsyncWriter S) → IsSafe limit a → IsSafe limit (request_checkpoint a).1
  unfolding request_checkpoint
  requested-IsSafe limit a h = always-Outcome {Good = λ b. IsSafe limit b} (
      if-Outcome (not (is_ok a.background_status))
        (λ _. status-Outcome a.background_status h (λ c. h))
        (λ _. if-Outcome (not a.running) (λ _. stopped h) (λ _. returned h)))

  stop-IsSafe : (limit : ℕ) (a : AsyncWriter S) → IsSafe limit a → IsSafe limit (request_stop a)
  unfolding request_stop
  stop-IsSafe limit a h = elim (Bool-cases a.running) [ inl e ↦ rw e h | inr e ↦ rw e h ]

  submit-IsSafe :
      (limit : ℕ) (view : ByteView) (time : ℤ) (flags : ℕ) (expected : Option AppendContract)
      (now : ℕ) (a : AsyncWriter S)
      → limit + 1 < 2 ^ 64
      → IsSafe limit a
      → IsSafe (limit + 1) (submit_impl view time flags expected now a).1
  unfolding submit_impl
  submit-IsSafe limit view time flags expected now a small (inl h) =
      inl (submit_impl-IsOrdered dev limit view time flags expected now a h small)
  submit-IsSafe limit view time flags expected now a small (inr (gone, bad)) =
      rw bad (inr (gone, bad))

  raise-IsSafe : (limit : ℕ) (a : AsyncWriter S) → IsSafe limit a → IsSafe (limit + 1) a
  raise-IsSafe limit a (inl h) = inl (raise_limit limit a.queue _ _ _ _ _ _ _ _ h)
  raise-IsSafe limit a (inr h) = inr h

  pub perform-IsSafe :
      (limit : ℕ) (action : Action) (a : AsyncWriter S)
      → limit + 1 < 2 ^ 64
      → IsSafe limit a
      → IsSafe (limit + 1) (perform dev action a)
  unfolding perform
  perform-IsSafe limit (submits view time flags expected now) a small h =
      submit-IsSafe limit view time flags expected now a small h
  perform-IsSafe limit asks_checkpoint a small h =
      raise-IsSafe limit (request_checkpoint a).1 (requested-IsSafe limit a h)
  perform-IsSafe limit asks_stop a small h =
      raise-IsSafe limit (request_stop a) (stop-IsSafe limit a h)
  perform-IsSafe limit (takes now dequeued_at) a small h =
      raise-IsSafe limit (take_if_waiting dev a.thread now dequeued_at a)
        (taken-IsSafe limit a.thread now dequeued_at a refl h)
  perform-IsSafe limit (completes durable_at) a small h =
      raise-IsSafe limit (complete_held dev a.thread durable_at a)
        (completed-IsSafe limit a.thread durable_at a refl h)

  perform_all-IsSafe :
      (limit : ℕ) (actions : List Action) (a : AsyncWriter S)
      → limit + length actions < 2 ^ 64
      → IsSafe limit a
      → IsSafe (limit + length actions) (perform_all dev actions a)
  unfolding perform_all
  perform_all-IsSafe limit [] a small h = rw (plus_zero limit) h
  perform_all-IsSafe limit (action ∷ actions) a small h =
      let rest =
        perform_all-IsSafe (limit + 1) actions (perform dev action a) (omega (arith, small))
          (perform-IsSafe limit action a (omega (arith, small)) h) in
      rw (plus_suc limit (length actions)) rest

  pub confirmed :
      (target : ℕ) (a : AsyncWriter S)
      → (answer_checkpoint target a ≡ some ok)
      → (is_ok a.background_status ≡ true) × (target ≤ a.completed_barrier)
  unfolding answer_checkpoint
  confirmed target a e = confirmed_status a.background_status a.running target a.completed_barrier e

  pub launch-IsOrdered :
      (now : ℕ) (a : AsyncWriter S)
      → a.options.queue_capacity_bytes < 2 ^ 64
      → IsOrdered 0 (launch now a)
  unfolding launch
  launch-IsOrdered now a h = record {
    first = 1;
    queue_run = refl;
    held_next = refl;
    bytes_counted = refl;
    barrier_trails = omega arith;
    barrier_durable = refl;
    bytes_bound = omega arith;
    records_bound = omega arith;
    capacity_bound = h;
    submitted_bound = omega arith;
  }

  started-IsSafe :
      (now : ℕ) (actions : List Action) (a : AsyncWriter S)
      → a.options.queue_capacity_bytes < 2 ^ 64
      → length actions < 2 ^ 64
      → IsSafe (length actions) (perform_all dev actions (launch now a))
  started-IsSafe now actions a small few =
      let p =
        perform_all-IsSafe 0 actions (launch now a) (rw (zero_plus (length actions)) few)
          (inl (launch-IsOrdered now a small)) in
      rw (zero_plus (length actions)) at p

  safe-IsOrdered :
      (limit : ℕ) (a : AsyncWriter S)
      → (is_ok a.background_status ≡ true)
      → IsSafe limit a
      → IsOrdered limit a
  safe-IsOrdered limit a fine (inl h) = h
  safe-IsOrdered limit a fine (inr (gone, bad)) = absurd cc

  -- In every execution of fewer than 2 ^ 64 actions that starts with `start`, a writer that has not
  -- failed has its queue in the order of submission, right after the processed items, with its bytes
  -- counted and both capacities kept; its barrier is what is durable and trails what was processed.
  pub perform_all-IsOrdered :
      (now : ℕ) (actions : List Action) (a : AsyncWriter S)
      → a.options.queue_capacity_bytes < 2 ^ 64
      → length actions < 2 ^ 64
      → (is_ok (perform_all dev actions (launch now a)).background_status ≡ true)
      → IsOrdered (length actions) (perform_all dev actions (launch now a))
  perform_all-IsOrdered now actions a small few fine =
      safe-IsOrdered (length actions) (perform_all dev actions (launch now a)) fine
        (started-IsSafe now actions a small few)

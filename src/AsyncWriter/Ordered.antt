-- ===== src/AsyncWriter/Ordered.antt =====
-- The order of the queue along the critical sections of the clients and of the background thread.
use tfdb.Prelude.{
  ℕ, ◌+◌, ◌^◌, ◌<◌, ◌≡◌, refl, ap, ◌∙◌, inl, inr, Bool, true, false, not, ◌&&◌, ◌||◌, Option, none,
  some, List, [], ◌∷◌, arith, ltb, if◌then◌else◌, Bool-cases, length, length-append, ℤ,
}
use tfdb.Status.{ok, is_ok}
use tfdb.RingStore.Outcome.{Outcome, returned, stopped, if-Outcome, status-Outcome, always-Outcome}
use tfdb.Bytes.{ByteView, empty, valid, contents, size}
use tfdb.RingStore.State.{Device, add64}
use tfdb.RingStore.Append.{AppendContract}
use tfdb.AsyncWriter.State.{Item, Work, waiting, holding, AsyncWriter}
use tfdb.AsyncWriter.Client.{submit_impl, enqueue, queue_full}
use tfdb.AsyncWriter.Thread.{
  dequeue, take_work, finish_work, count_item, leave, complete_barrier, wants_checkpoint,
}
-- The items have consecutive sequence numbers, from `first` to before `next`.
use tfdb.AsyncWriter.Order.{
  held, Order, IsOrdered, append-IsRun, bytes_append, processed_item, barrier_reached, IsIdle,
  wrap_small, room, take_head, contents_size, raise_limit,
}

module _ {S : Type 0} (dev : Device S) (limit : ℕ) where
  -- An item that fits the queue is accepted as the next one.
  enqueue-IsOrdered :
      (a : AsyncWriter S) (item : Item)
      → IsOrdered limit a
      → (item.sequence ≡ a.submitted_sequence + 1)
      → (queue_full a (length item.item_bytes) ≡ false)
      → IsOrdered (limit + 1) (enqueue item a)
  unfolding enqueue
  enqueue-IsOrdered a item h e fits =
      let (shorter, lighter) =
        room a.options.queue_capacity_records (length a.queue) a.options.queue_capacity_bytes
          a.queued_bytes (length item.item_bytes) h.bytes_bound fits in
      let sum : add64 a.queued_bytes (length item.item_bytes)
          ≡ a.queued_bytes + length item.item_bytes =
        wrap_small _ _ (omega (arith, lighter, h.capacity_bound)) in
      record {
        first = h.first;
        queue_run = append-IsRun h.first (a.submitted_sequence + 1) a.queue item h.queue_run e;
        held_next = h.held_next;
        bytes_counted = sum ∙ rw (bytes_append a.queue item) (omega (arith, h.bytes_counted));
        barrier_trails = h.barrier_trails;
        barrier_durable = h.barrier_durable;
        bytes_bound = rw sum lighter;
        records_bound = rw length-append (omega (arith, shorter));
        capacity_bound = h.capacity_bound;
        submitted_bound = rw e (omega (arith, h.submitted_bound));
      }

  submit_impl-Outcome :
      (view : ByteView) (time : ℤ) (flags : ℕ) (expected : Option AppendContract) (now : ℕ)
      (a : AsyncWriter S)
      → IsOrdered limit a
      → limit + 1 < 2 ^ 64
      → Outcome
          (λ b. IsOrdered (limit + 1) b)
          (λ _ b. IsOrdered (limit + 1) b)
          (submit_impl view time flags expected now a)
  unfolding submit_impl
  submit_impl-Outcome view time flags expected now a h small =
      let k = raise_limit limit a.queue _ _ _ _ _ _ _ _ h in
      if-Outcome (not (is_ok a.background_status))
        (λ _. status-Outcome a.background_status k (λ c. k))
        (λ _.
          if-Outcome (not a.running || a.stopping) (λ _. stopped k)
            (λ _.
              if-Outcome (empty view) (λ _. stopped k)
                (λ _.
                  if-Outcome (not (valid view)) (λ _. stopped k)
                    (λ v.
                      if-Outcome (queue_full a (size view)) (λ _. stopped k)
                        (λ fits. returned (
                          enqueue-IsOrdered a
                            (record {
                              item_bytes = contents view;
                              time_ns = time;
                              flags = flags;
                              sequence = add64 a.submitted_sequence 1;
                              contract = expected;
                              submitted_at_ns = now;
                            })
                            h (wrap_small _ _ (omega (arith, small, h.submitted_bound)))
                            (rw (contents_size view v) fits)))))))

  -- `submit_impl` of an ordered writer keeps it ordered, while its sequence numbers have not reached
  -- 2 ^ 64: an accepted item gets the next number, goes to the end of the queue, and fits the queue.
  pub submit_impl-IsOrdered :
      (view : ByteView) (time : ℤ) (flags : ℕ) (expected : Option AppendContract) (now : ℕ)
      (a : AsyncWriter S)
      → IsOrdered limit a
      → limit + 1 < 2 ^ 64
      → IsOrdered (limit + 1) (submit_impl view time flags expected now a).1
  submit_impl-IsOrdered view time flags expected now a h small =
      always-Outcome (submit_impl-Outcome view time flags expected now a h small)

  idle : (a : AsyncWriter S) → (a.thread ≡ waiting) → IsOrdered limit a → IsIdle limit a
  idle a at h = rw (ap held at) at h

  dequeue-IsOrdered :
      (dequeued_at : ℕ) (items : List Item) (a : AsyncWriter S)
      → (a.queue ≡ items)
      → Order limit items a.queued_bytes a.submitted_sequence a.processed_sequence
          a.completed_barrier a.async_metrics.durable_sequence a.options.queue_capacity_records
          a.options.queue_capacity_bytes none
      → IsOrdered limit (dequeue dev dequeued_at items a)
  dequeue-IsOrdered dequeued_at [] a e h = rw e h
  dequeue-IsOrdered dequeued_at (item ∷ items) a e h = take_head item items _ _ _ _ _ _ _ h

  -- What the loop decides before its first critical section ends keeps the writer ordered.
  pub take_work-IsOrdered :
      (now dequeued_at : ℕ) (a : AsyncWriter S)
      → (a.thread ≡ waiting)
      → IsOrdered limit a
      → IsOrdered limit (take_work dev now dequeued_at a)
  unfolding take_work
  take_work-IsOrdered now dequeued_at a at h = elim (Bool-cases (wants_checkpoint dev now a)) [
    | inl e ↦ rw e (idle a at h)
    | inr e ↦ rw e (dequeue-IsOrdered dequeued_at a.queue a refl (idle a at h))
  ]

  count_item-IsIdle :
      (item : Option Item) (dequeued_at : ℕ) (a : AsyncWriter S)
      → Order limit a.queue a.queued_bytes a.submitted_sequence a.processed_sequence
          a.completed_barrier a.async_metrics.durable_sequence a.options.queue_capacity_records
          a.options.queue_capacity_bytes item
      → IsIdle limit (count_item dev item dequeued_at a)
  count_item-IsIdle none dequeued_at a h = h
  count_item-IsIdle (some item) dequeued_at a h = processed_item item a.queue _ _ _ _ _ _ _ h

  complete_barrier-IsIdle :
      (durable_at : ℕ) (a : AsyncWriter S)
      → IsIdle limit a
      → IsIdle limit (complete_barrier dev durable_at a)
  unfolding complete_barrier
  complete_barrier-IsIdle durable_at a h =
      elim (Bool-cases
        (ltb a.async_metrics.durable_sequence a.processed_sequence && a.have_oldest_undurable)) [
          | inl e ↦ rw e (barrier_reached a.queue _ _ _ _ _ _ _ h)
          | inr e ↦ rw e (barrier_reached a.queue _ _ _ _ _ _ _ h)
        ]

  leave-IsOrdered :
      (exits : Bool) (a : AsyncWriter S) → IsIdle limit a → IsOrdered limit (leave dev exits a)
  leave-IsOrdered true a h = h
  leave-IsOrdered false a h = h

  completed-IsIdle :
      (completes : Bool) (durable_at : ℕ) (a : AsyncWriter S)
      → IsIdle limit a
      → IsIdle limit (if completes then complete_barrier dev durable_at a else a)
  completed-IsIdle true durable_at a h = complete_barrier-IsIdle durable_at a h
  completed-IsIdle false durable_at a h = h

  -- What the loop records after its calls of the store returned `ok` keeps the writer ordered: the
  -- item that it held is the one after the last processed one.
  pub finish_work-IsOrdered :
      (work : Work) (durable_at : ℕ) (a : AsyncWriter S)
      → (a.thread ≡ holding work)
      → IsOrdered limit a
      → IsOrdered limit (finish_work dev work ok durable_at a)
  unfolding finish_work
  finish_work-IsOrdered work durable_at a at h =
      let counted = count_item-IsIdle work.item work.dequeued_at_ns a (rw (ap held at) at h) in
      leave-IsOrdered work.exit_after_checkpoint _ (
        completed-IsIdle work.do_checkpoint durable_at
          (count_item dev work.item work.dequeued_at_ns a) counted)

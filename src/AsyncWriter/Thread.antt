-- ===== src/AsyncWriter/Thread.antt =====
-- `run_loop`. The store is called between the two critical sections, without the writer's mutex.
use tfdb.Prelude.{
  ℕ, ◌*◌, max, Bool, true, false, not, ◌&&◌, ◌||◌, Option, none, some, List, [], ◌∷◌, ltb, leb,
  ◌==◌, if◌then◌else◌, length, pos_part,
}
use tfdb.Status.{Status, ok, error}
use tfdb.Bytes.{bytes}
use tfdb.RingStore.State.{Device, Impl, add64, sub64}
use tfdb.RingStore.Append.{append, append_checked, checkpoint}
use tfdb.AsyncWriter.State.{Item, Work, waiting, finished, holding, AsyncWriter}
use tfdb.AsyncWriter.Client.{elapsed_ns, interval_elapsed}

module _ {S : Type 0} (dev : Device S) where
  abbrev pub interval_ns : AsyncWriter S → ℕ
  interval_ns a = pos_part a.options.checkpoint_interval * 1000000

  -- The condition of the wait. A wait that runs into its time limit goes on without it.
  abbrev pub is_woken : ℕ → AsyncWriter S → Bool
  is_woken now a =
      a.stopping
      || a.checkpoint_requested
      || not (length a.queue == 0)
      || interval_elapsed a.checkpoint_started_ns now (interval_ns a)

  abbrev pub wants_checkpoint : ℕ → AsyncWriter S → Bool
  wants_checkpoint now a =
      interval_elapsed a.checkpoint_started_ns now (interval_ns a)
      || (a.checkpoint_requested && leb a.requested_barrier a.processed_sequence)
      || (a.stopping && length a.queue == 0)

  abbrev pub hold : Option Item → Bool → Bool → ℕ → AsyncWriter S → AsyncWriter S
  hold item do_checkpoint exits dequeued_at a = record a {
    thread = holding (record {
      item = item;
      do_checkpoint = do_checkpoint;
      exit_after_checkpoint = exits;
      dequeued_at_ns = dequeued_at;
    });
  }

  abbrev pub dequeue : ℕ → List Item → AsyncWriter S → AsyncWriter S
  dequeue dequeued_at [] a = hold none false false 0 a
  dequeue dequeued_at (item ∷ items) a =
      hold (some item) false false dequeued_at
        (record a { queue = items; queued_bytes = sub64 a.queued_bytes (length item.item_bytes) })

  -- The first critical section, after its wait.
  unfoldable pub take_work : ℕ → ℕ → AsyncWriter S → AsyncWriter S
  take_work now dequeued_at a =
      if wants_checkpoint now a
      then hold none true (a.stopping && length a.queue == 0) 0 a
      else dequeue dequeued_at a.queue a

  abbrev pub store_item : Option Item → Impl S → Status × Impl S
  store_item none s = (ok, s)
  store_item (some item) s = elim item.contract [
    | none ↦ append dev (bytes item.item_bytes) item.time_ns item.flags s
    | some expected ↦ append_checked dev (bytes item.item_bytes) item.time_ns expected item.flags s
  ]

  -- The calls of the store. An item and a checkpoint are never held together.
  unfoldable pub do_work : Work → Impl S → Status × Impl S
  do_work work s = if work.do_checkpoint then checkpoint dev s else store_item work.item s

  unfoldable pub fail_background : Status → AsyncWriter S → AsyncWriter S
  fail_background status a = record a {
    async_metrics = record a.async_metrics {
      background_errors = add64 a.async_metrics.background_errors 1;
    };
    background_status = status;
    running = false;
    stopping = true;
    queue = [];
    queued_bytes = 0;
    thread = finished;
  }

  abbrev pub count_item : Option Item → ℕ → AsyncWriter S → AsyncWriter S
  count_item none dequeued_at a = a
  count_item (some item) dequeued_at a = record a {
    processed_sequence = item.sequence;
    async_metrics = record a.async_metrics {
      processed_records = add64 a.async_metrics.processed_records 1;
      maximum_queue_residence_ns =
          max a.async_metrics.maximum_queue_residence_ns
            (elapsed_ns item.submitted_at_ns dequeued_at);
    };
  }

  abbrev first_submitted : List Item → ℕ → ℕ
  first_submitted [] old = old
  first_submitted (item ∷ items) old = item.submitted_at_ns

  -- The oldest record that is not durable, after a checkpoint that advanced.
  abbrev pub settle_oldest : ℕ → AsyncWriter S → AsyncWriter S
  settle_oldest durable_at a =
      if ltb a.async_metrics.durable_sequence a.processed_sequence && a.have_oldest_undurable
      then record a {
        async_metrics = record a.async_metrics {
          maximum_accepted_to_durable_ns =
              max a.async_metrics.maximum_accepted_to_durable_ns
                (elapsed_ns a.oldest_undurable_ns durable_at);
        };
        have_oldest_undurable = not (length a.queue == 0);
        oldest_undurable_ns = first_submitted a.queue a.oldest_undurable_ns;
      }
      else a

  unfoldable pub complete_barrier : ℕ → AsyncWriter S → AsyncWriter S
  complete_barrier durable_at a =
      let b = settle_oldest durable_at a in
      record b {
        async_metrics = record b.async_metrics {
          checkpoint_calls = add64 a.async_metrics.checkpoint_calls 1;
          durable_sequence = a.processed_sequence;
        };
        completed_barrier = a.processed_sequence;
        checkpoint_requested =
            if leb a.requested_barrier a.processed_sequence then false else a.checkpoint_requested;
        checkpoint_started_ns = durable_at;
      }

  abbrev pub leave : Bool → AsyncWriter S → AsyncWriter S
  leave true a = record a { running = false; thread = finished }
  leave false a = record a { thread = waiting }

  -- The second critical section.
  unfoldable pub finish_work : Work → Status → ℕ → AsyncWriter S → AsyncWriter S
  unfolding fail_background complete_barrier
  finish_work work (error code) durable_at a = fail_background (error code) a
  finish_work work ok durable_at a =
      let b = count_item work.item work.dequeued_at_ns a in
      let c = if work.do_checkpoint then complete_barrier durable_at b else b in
      leave work.exit_after_checkpoint c

-- ===== src/AsyncWriter/Client.antt =====
-- The operations that clients call. Each reading of `monotonic_clock_ns` is an argument. A call that
-- blocks is two functions: what it does before it waits, and what it returns once its condition holds.
use tfdb.Prelude.{
  ℕ, ◌-◌, ◌/◌, ◌^◌, min, max, Bool, true, false, not, ◌&&◌, ◌||◌, Option, none, some, [], ◌∷◌, ◌++◌,
  ltb, leb, ◌==◌, if◌then◌else◌, length, ℤ, pos, pos_part, ltb_ℤ,
}
use tfdb.Status.{ErrorCode, Status, ok, error, is_ok}
use tfdb.Bytes.{ByteView, empty, valid, contents, size}
use tfdb.RingStore.State.{add64}
use tfdb.RingStore.Append.{AppendContract, writer_status}
use tfdb.AsyncWriter.State.{Item, AsyncWriterMetrics, AsyncWriterOptions, waiting, AsyncWriter}

abbrev pub elapsed_ns : ℕ → ℕ → ℕ
elapsed_ns begin end = end - begin

abbrev pub interval_elapsed : ℕ → ℕ → ℕ → Bool
interval_elapsed started now interval = leb started now && leb interval (now - started)

-- `AsyncWriterMetrics()`
abbrev pub no_metrics : AsyncWriterMetrics
no_metrics = record {
  submitted_records = 0;
  processed_records = 0;
  backpressure_events = 0;
  background_errors = 0;
  checkpoint_calls = 0;
  maximum_queued_records = 0;
  maximum_queued_bytes = 0;
  durable_sequence = 0;
  maximum_queue_residence_ns = 0;
  maximum_accepted_to_durable_ns = 0;
}

unfoldable pub bad_options : AsyncWriterOptions → Bool
bad_options o =
    o.queue_capacity_records == 0
    || o.queue_capacity_bytes == 0
    || not (ltb_ℤ (pos 0) o.checkpoint_interval)
    || ltb ((2 ^ 64 - 1) / 1000000) (pos_part o.checkpoint_interval)

module _ {S : Type 0} where
  -- The thread reads the clock, `now`, before its first critical section.
  unfoldable pub launch : ℕ → AsyncWriter S → AsyncWriter S
  launch now a = record a {
    stopping = false;
    checkpoint_requested = false;
    queue = [];
    queued_bytes = 0;
    submitted_sequence = 0;
    processed_sequence = 0;
    requested_barrier = 0;
    completed_barrier = 0;
    have_oldest_undurable = false;
    async_metrics = no_metrics;
    background_status = ok;
    running = true;
    thread = waiting;
    checkpoint_started_ns = now;
  }

  -- A thread that has ended is joined at once.
  unfoldable pub start : ℕ → AsyncWriter S → Status × AsyncWriter S
  unfolding launch bad_options
  start now a =
      if a.running
      then (error ErrorCode.busy, a)
      else if not (is_ok a.background_status)
      then (a.background_status, a)
      else if not (is_ok (writer_status a.store))
      then (writer_status a.store, a)
      else if bad_options a.options
      then (error ErrorCode.invalid_argument, a)
      else (ok, launch now a)

  unfoldable pub enqueue : Item → AsyncWriter S → AsyncWriter S
  enqueue item a =
      let bytes' = add64 a.queued_bytes (length item.item_bytes) in
      record a {
        submitted_sequence = item.sequence;
        queued_bytes = bytes';
        queue = a.queue ++ item ∷ [];
        have_oldest_undurable = true;
        oldest_undurable_ns =
            if a.have_oldest_undurable then a.oldest_undurable_ns else item.submitted_at_ns;
        async_metrics = record a.async_metrics {
          submitted_records = add64 a.async_metrics.submitted_records 1;
          maximum_queued_records =
              max a.async_metrics.maximum_queued_records (length (a.queue ++ item ∷ []));
          maximum_queued_bytes = max a.async_metrics.maximum_queued_bytes bytes';
        };
      }

  abbrev pub queue_full : AsyncWriter S → ℕ → Bool
  queue_full a record_size =
      leb a.options.queue_capacity_records (length a.queue)
      || ltb (a.options.queue_capacity_bytes - min a.queued_bytes a.options.queue_capacity_bytes)
          record_size

  abbrev pub count_backpressure : AsyncWriter S → AsyncWriter S
  count_backpressure a = record a {
    async_metrics = record a.async_metrics {
      backpressure_events = add64 a.async_metrics.backpressure_events 1;
    };
  }

  -- `submit_impl`, of which `submit` and `submit_checked` are the two cases of `expected`.
  unfoldable pub submit_impl :
      ByteView → ℤ → ℕ → Option AppendContract → ℕ → AsyncWriter S → Status × AsyncWriter S
  unfolding enqueue
  submit_impl view time flags expected now a =
      if not (is_ok a.background_status)
      then (a.background_status, a)
      else if not a.running || a.stopping
      then (error ErrorCode.closed, a)
      else if empty view
      then (error ErrorCode.invalid_argument, a)
      else if not (valid view)
      then (error ErrorCode.invalid_argument, a)
      else if queue_full a (size view)
      then (error ErrorCode.busy, count_backpressure a)
      else (
        ok,
        enqueue
            (record {
              item_bytes = contents view;
              time_ns = time;
              flags = flags;
              sequence = add64 a.submitted_sequence 1;
              contract = expected;
              submitted_at_ns = now;
            })
            a,
      )

  -- `checkpoint` before it waits: the barrier that it waits for.
  unfoldable pub request_checkpoint : AsyncWriter S → Status × AsyncWriter S
  request_checkpoint a =
      if not (is_ok a.background_status)
      then (a.background_status, a)
      else if not a.running
      then (error ErrorCode.closed, a)
      else (
        ok,
        record a {
          requested_barrier = max a.requested_barrier a.submitted_sequence;
          checkpoint_requested = true;
        },
      )

  -- `checkpoint` after it: nothing while its condition does not hold.
  unfoldable pub answer_checkpoint : ℕ → AsyncWriter S → Option Status
  answer_checkpoint target a =
      if not (leb target a.completed_barrier || not (is_ok a.background_status) || not a.running)
      then none
      else if not (is_ok a.background_status)
      then some a.background_status
      else if ltb a.completed_barrier target
      then some (error ErrorCode.closed)
      else some ok

  -- `stop` before it joins the thread. What it returns is `background_status`.
  unfoldable pub request_stop : AsyncWriter S → AsyncWriter S
  request_stop a =
      if a.running
      then record a {
        stopping = true;
        requested_barrier = a.submitted_sequence;
        checkpoint_requested = true;
      }
      else a

-- ===== src/AsyncWriter/State.antt =====
-- The state of an `AsyncWriter` with its store. `interval_ns` is `checkpoint_interval` in nanoseconds.
-- The background thread's position in its loop is a part of the state: between its two critical
-- sections it holds `Work`, and the clients run.
use tfdb.Prelude.{ℕ, ℤ, List, Bool, Option}
use tfdb.Status.{Status}
use tfdb.RingStore.State.{Impl}
use tfdb.RingStore.Append.{AppendContract}

-- `checked` and `contract` are one field.
pub record Item : Type 0 where
  pub item_bytes : List ℕ
  pub time_ns : ℤ
  pub flags : ℕ
  pub sequence : ℕ
  pub contract : Option AppendContract
  pub submitted_at_ns : ℕ

pub record AsyncWriterMetrics : Type 0 where
  pub submitted_records : ℕ
  pub processed_records : ℕ
  pub backpressure_events : ℕ
  pub background_errors : ℕ
  pub checkpoint_calls : ℕ
  pub maximum_queued_records : ℕ
  pub maximum_queued_bytes : ℕ
  pub durable_sequence : ℕ
  pub maximum_queue_residence_ns : ℕ
  pub maximum_accepted_to_durable_ns : ℕ

pub record AsyncWriterOptions : Type 0 where
  pub queue_capacity_records : ℕ
  pub queue_capacity_bytes : ℕ
  pub checkpoint_interval : ℤ

-- What the loop has decided in its first critical section.
pub record Work : Type 0 where
  pub item : Option Item
  pub do_checkpoint : Bool
  pub exit_after_checkpoint : Bool
  pub dequeued_at_ns : ℕ

-- The thread was not started; it is before its first critical section; between the two; or at its end.
pub data Thread : Type 0 where
  unstarted waiting finished : Thread
  holding : Work → Thread

pub record AsyncWriter (S : Type 0) : Type 0 where
  pub store : Impl S
  pub options : AsyncWriterOptions
  pub queue : List Item
  pub queued_bytes : ℕ
  pub running : Bool
  pub stopping : Bool
  pub checkpoint_requested : Bool
  pub submitted_sequence : ℕ
  pub processed_sequence : ℕ
  pub requested_barrier : ℕ
  pub completed_barrier : ℕ
  pub have_oldest_undurable : Bool
  pub oldest_undurable_ns : ℕ
  pub async_metrics : AsyncWriterMetrics
  pub background_status : Status
  pub thread : Thread
  pub checkpoint_started_ns : ℕ

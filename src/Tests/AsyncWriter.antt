-- ===== src/Tests/AsyncWriter.antt =====
-- An execution of the asynchronous writer: two submissions, a checkpoint, and its answer.
use tfdb.Prelude.{ℕ, inr, ◌≡◌, refl, true, false, none, some, List, [], ◌∷◌, arith, pos}
use tfdb.Status.{ok, is_ok}
use tfdb.Bytes.{bytes}
use tfdb.Bytes.{to_u64}
use tfdb.Codec.{built_in_codec}
use tfdb.Format.{align_up}
use tfdb.RingStore.State.{◌>=>◌, find_at, codec_for, index_begin}
use tfdb.RingStore.Append.{append, checkpoint}
use tfdb.RingStore.Emit.{emit_builder}
use tfdb.RingStore.Media.{sync_media}
use tfdb.RingStore.Rotate.{ensure_empty_builder_capacity}
use tfdb.AsyncWriter.State.{finished, AsyncWriter, unstarted}
use tfdb.AsyncWriter.Client.{launch, no_metrics, answer_checkpoint}
use tfdb.AsyncWriter.Steps.{
  asks_stop, Action, submits, asks_checkpoint, takes, completes, perform_all,
}
use tfdb.AsyncWriter.Order.{IsOrdered}
use tfdb.AsyncWriter.Barrier.{perform_all-IsOrdered}
use tfdb.AsyncWriter.Confirmed.{IsDurableAfter, answer_checkpoint-durable}
use tfdb.Tests.RingStore.{Log, log_device, empty_store, empty_store-IsConsistent}
use tfdb.Tests.Durable.{marking_device, marking_medium}
use tfdb.AsyncWriter.Drained.{stopping-finishes, actions_of, Round}

abbrev idle_writer : AsyncWriter Log
idle_writer = record {
  store = empty_store;
  options = record {
    queue_capacity_records = 8;
    queue_capacity_bytes = 64;
    checkpoint_interval = pos 1000;
  };
  queue = [];
  queued_bytes = 0;
  running = false;
  stopping = false;
  checkpoint_requested = false;
  submitted_sequence = 0;
  processed_sequence = 0;
  requested_barrier = 0;
  completed_barrier = 0;
  have_oldest_undurable = false;
  oldest_undurable_ns = 0;
  async_metrics = no_metrics;
  background_status = ok;
  thread = unstarted;
  checkpoint_started_ns = 0;
}

-- The checkpoint is asked for after the second record, and confirmed after both are appended.
abbrev two_records : List Action
two_records =
    submits (bytes (1 ∷ 2 ∷ [])) (pos 5) 0 none 10
    ∷ takes 11 12
    ∷ submits (bytes (3 ∷ [])) (pos 6) 0 none 13
    ∷ asks_checkpoint
    ∷ completes 14
    ∷ takes 15 16
    ∷ completes 17
    ∷ takes 18 19
    ∷ completes 20
    ∷ []

confirms :
    answer_checkpoint 2 (perform_all marking_device two_records (launch 0 idle_writer)) ≡ some ok
unfolding answer_checkpoint perform_all launch append ◌>=>◌ ensure_empty_builder_capacity find_at
    align_up index_begin checkpoint to_u64 emit_builder codec_for built_in_codec sync_media
confirms = refl

is_fine : is_ok (perform_all log_device two_records (launch 0 idle_writer)).background_status ≡ true
unfolding perform_all launch append ◌>=>◌ ensure_empty_builder_capacity find_at align_up index_begin
    checkpoint to_u64 emit_builder codec_for built_in_codec sync_media
is_fine = refl

perform_all-IsOrdered_example :
    IsOrdered 9 (perform_all log_device two_records (launch 0 idle_writer))
perform_all-IsOrdered_example =
    perform_all-IsOrdered log_device 0 two_records idle_writer (omega arith) (omega arith) is_fine

answer_checkpoint-durable_example :
    IsDurableAfter marking_device marking_medium 0 2 two_records (launch 0 idle_writer)
answer_checkpoint-durable_example =
    answer_checkpoint-durable marking_device marking_medium 0 2 two_records idle_writer
      (omega arith) (omega arith) (omega arith) (omega arith) empty_store-IsConsistent
      (inr (inr tt)) confirms

-- Two records are queued when the writer is stopped.
abbrev stopped_writer : AsyncWriter Log
stopped_writer =
    perform_all log_device
      (submits (bytes (1 ∷ 2 ∷ [])) (pos 5) 0 none 10
        ∷ submits (bytes (3 ∷ [])) (pos 6) 0 none 11
        ∷ asks_stop
        ∷ [])
      (launch 0 idle_writer)

abbrev round_at : ℕ → Round
round_at t = record { now = t; dequeued_at = t; durable_at = t }

abbrev four_rounds : List Round
four_rounds = round_at 12 ∷ round_at 13 ∷ round_at 14 ∷ round_at 15 ∷ []

stopping-finishes_example :
    (perform_all log_device (actions_of four_rounds) stopped_writer).thread ≡ finished
unfolding perform_all launch
stopping-finishes_example =
    stopping-finishes log_device 0 15 four_rounds stopped_writer refl refl (omega arith)
      (omega arith) (omega arith) (omega arith)

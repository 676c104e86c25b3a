-- ===== src/AsyncWriter/Steps.antt =====
-- Executions: the critical sections of the clients and of the background thread, in the order in which
-- they take the writer's mutex. The store is changed by the background thread only, so the call of
-- the store that precedes the thread's second critical section is in one step with it.
use tfdb.Prelude.{ℕ, ℤ, Option, List, [], ◌∷◌}
use tfdb.Bytes.{ByteView}
use tfdb.RingStore.State.{Device, Impl}
use tfdb.RingStore.Append.{AppendContract}
use tfdb.AsyncWriter.State.{AsyncWriter, Thread, waiting, holding}
use tfdb.AsyncWriter.Client.{submit_impl, request_checkpoint, request_stop}
use tfdb.AsyncWriter.Thread.{take_work, do_work, finish_work}

-- Each action carries the readings of the clock that it makes.
pub data Action : Type 0 where
  submits : ByteView → ℤ → ℕ → Option AppendContract → ℕ → Action
  asks_checkpoint asks_stop : Action
  takes : ℕ → ℕ → Action
  completes : ℕ → Action

module _ {S : Type 0} (dev : Device S) where
  abbrev pub with_store : Impl S → AsyncWriter S → AsyncWriter S
  with_store s a = record a { store = s }

  -- The thread takes work only while it waits, and completes only what it holds.
  abbrev pub take_if_waiting : Thread → ℕ → ℕ → AsyncWriter S → AsyncWriter S
  take_if_waiting waiting now dequeued_at a = take_work dev now dequeued_at a
  take_if_waiting thread now dequeued_at a = a

  abbrev pub complete_held : Thread → ℕ → AsyncWriter S → AsyncWriter S
  complete_held (holding work) durable_at a =
      let done = do_work dev work a.store in
      finish_work dev work done.0 durable_at (with_store done.1 a)
  complete_held thread durable_at a = a

  unfoldable pub perform : Action → AsyncWriter S → AsyncWriter S
  unfolding submit_impl request_checkpoint request_stop take_work do_work finish_work
  perform (submits view time flags expected now) a = (submit_impl view time flags expected now a).1
  perform asks_checkpoint a = (request_checkpoint a).1
  perform asks_stop a = request_stop a
  perform (takes now dequeued_at) a = take_if_waiting a.thread now dequeued_at a
  perform (completes durable_at) a = complete_held a.thread durable_at a

  unfoldable pub perform_all : List Action → AsyncWriter S → AsyncWriter S
  unfolding perform
  perform_all [] a = a
  perform_all (action ∷ actions) a = perform_all actions (perform action a)

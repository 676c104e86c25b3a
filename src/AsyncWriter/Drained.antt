-- ===== src/AsyncWriter/Drained.antt =====
-- The background thread of a writer that is stopping comes to its end.
use tfdb.Prelude.{
  ℕ, suc, ◌+◌, ◌-◌, ◌*◌, ◌≤◌, ◌<◌, ◌≡◌, refl, ap, ◌∙◌, ◌⊎◌, inl, inr, Bool, true, false, ◌&&◌, ◌||◌,
  none, some, List, [], ◌∷◌, arith, ltb, leb, ◌==◌, if◌then◌else◌, Bool-cases, length, pos_part,
  neither,
}
use tfdb.Status.{Status, ok, error}
use tfdb.RingStore.State.{Device}
use tfdb.AsyncWriter.State.{Item, AsyncWriterOptions, AsyncWriter, Thread, waiting, finished}
use tfdb.AsyncWriter.Client.{interval_elapsed}
use tfdb.AsyncWriter.Thread.{
  interval_ns, wants_checkpoint, dequeue, take_work, fail_background, settle_oldest,
  complete_barrier, finish_work,
}
use tfdb.AsyncWriter.Steps.{
  Action, takes, completes, take_if_waiting, complete_held, perform, perform_all,
}

-- The readings of the clock in a round of the thread's loop.
pub record Round : Type 0 where
  pub now : ℕ
  pub dequeued_at : ℕ
  pub durable_at : ℕ

abbrev pub actions_of : List Round → List Action
actions_of [] = []
actions_of (r ∷ rs) = takes r.now r.dequeued_at ∷ completes r.durable_at ∷ actions_of rs

-- The readings lie between two times.
abbrev pub Within : ℕ → ℕ → List Round → Type 0
Within first last [] = Unit {0}
Within first last (r ∷ rs) = (r.now ≤ last) × (first ≤ r.durable_at) × Within first last rs

-- A round for each item, one for the checkpoint that is asked for, and one for the last checkpoint.
abbrev pub one_if : Bool → ℕ
one_if true = 1
one_if false = 0

module _ {S : Type 0} (dev : Device S) where
  abbrev pub rounds_left : AsyncWriter S → ℕ
  rounds_left a = length a.queue + one_if a.checkpoint_requested + 1

  -- The thread is at the start of its loop, and was asked to stop.
  abbrev pub IsStopping : ℕ → AsyncWriterOptions → AsyncWriter S → Type 0
  IsStopping first o a =
      (a.thread ≡ waiting)
      × (a.stopping ≡ true)
      × (first ≤ a.checkpoint_started_ns)
      × (a.options ≡ o)

  abbrev IsNearer : ℕ → AsyncWriterOptions → ℕ → AsyncWriter S → Type 0
  IsNearer first o n b = (b.thread ≡ finished) ⊎ (IsStopping first o b × (rounds_left b ≤ n))

  -- What a checkpoint leaves as it is.
  settled-Kept :
      (durable_at : ℕ) (a : AsyncWriter S)
      → ((settle_oldest dev durable_at a).queue ≡ a.queue)
        × ((settle_oldest dev durable_at a).stopping ≡ a.stopping)
        × ((settle_oldest dev durable_at a).options ≡ a.options)
  settled-Kept durable_at a =
      elim (Bool-cases
        (ltb a.async_metrics.durable_sequence a.processed_sequence && a.have_oldest_undurable)) [
          | inl e ↦ rw e (refl, refl, refl)
          | inr e ↦ rw e (refl, refl, refl)
        ]

  failed-Nearer :
      (first n : ℕ) (o : AsyncWriterOptions) (status : Status) (a : AsyncWriter S)
      → IsNearer first o n (fail_background dev status a)
  unfolding fail_background
  failed-Nearer first n o status a = inl refl

  -- A round that makes the last checkpoint.
  left-Nearer :
      (first n durable_at : ℕ) (o : AsyncWriterOptions) (status : Status) (a : AsyncWriter S)
      → IsNearer first o n (
          finish_work dev
            (record {
              item = none;
              do_checkpoint = true;
              exit_after_checkpoint = true;
              dequeued_at_ns = 0;
            })
            status
            durable_at
            a)
  unfolding finish_work complete_barrier fail_background
  left-Nearer first n durable_at o ok a = inl refl
  left-Nearer first n durable_at o (error code) a = inl refl

  -- A round that makes the checkpoint that was asked for.
  asked-Nearer :
      (first n durable_at : ℕ) (o : AsyncWriterOptions) (status : Status) (a : AsyncWriter S)
      → first ≤ durable_at
      → (a.stopping ≡ true)
      → (a.options ≡ o)
      → (leb a.requested_barrier a.processed_sequence ≡ true)
      → length a.queue + 1 ≤ n
      → IsNearer first o n (
          finish_work dev
            (record {
              item = none;
              do_checkpoint = true;
              exit_after_checkpoint = false;
              dequeued_at_ns = 0;
            })
            status
            durable_at
            a)
  unfolding finish_work complete_barrier fail_background
  asked-Nearer first n durable_at o (error code) a d s opts reached room = inl refl
  asked-Nearer first n durable_at o ok a d s opts reached room =
      let (q, st, op) = settled-Kept durable_at a in
      let cleared : one_if
            (if leb a.requested_barrier a.processed_sequence then false else a.checkpoint_requested)
          ≡ 0 =
        rw reached refl in
      let same_length = ap (λ items. length items) q in
      inr ((refl, st ∙ s, d, op ∙ opts), omega (arith, cleared, same_length, room))

  -- A round that appends an item.
  appended-Nearer :
      (first n durable_at dequeued_at : ℕ) (o : AsyncWriterOptions) (item : Item) (status : Status)
      (a : AsyncWriter S)
      → first ≤ a.checkpoint_started_ns
      → (a.stopping ≡ true)
      → (a.options ≡ o)
      → rounds_left a ≤ n
      → IsNearer first o n (
          finish_work dev
            (record {
              item = some item;
              do_checkpoint = false;
              exit_after_checkpoint = false;
              dequeued_at_ns = dequeued_at;
            })
            status
            durable_at
            a)
  unfolding finish_work fail_background
  appended-Nearer first n durable_at dequeued_at o item (error code) a d s opts room = inl refl
  appended-Nearer first n durable_at dequeued_at o item ok a d s opts room =
      inr ((refl, s, d, opts), room)

quiet :
    (first last started now interval : ℕ)
    → first ≤ started
    → now ≤ last
    → last - first < interval
    → interval_elapsed started now interval ≡ false
quiet first last started now interval a b c = ground arith

both_hold : (t b c : Bool) → (c ≡ false) → (t && b || c ≡ true) → (t ≡ true) × (b ≡ true)
both_hold true true c k h = (refl, refl)
both_hold true false c k h = absurd cc
both_hold false b c k h = absurd cc

none_asked :
    (t : Bool) (s : Bool) (b c : Bool) → (s ≡ true) → (b || c || (s && t) ≡ false) → t ≡ false
none_asked t true b c e h = (neither h).1
none_asked t false b c e h = absurd cc

module _ {S : Type 0} (dev : Device S) where
  abbrev after_round : Round → AsyncWriter S → AsyncWriter S
  after_round r b = complete_held dev b.thread r.durable_at b

  dequeued-Nearer :
      (first n : ℕ) (o : AsyncWriterOptions) (r : Round) (items : List Item) (a : AsyncWriter S)
      → IsStopping dev first o a
      → rounds_left dev a ≤ suc n
      → (a.queue ≡ items)
      → ((length items == 0) ≡ false)
      → IsNearer dev first o n (after_round r (dequeue dev r.dequeued_at items a))
  dequeued-Nearer first n o r [] a (w, s, d, opts) room e some_ = absurd cc
  dequeued-Nearer first n o r (item ∷ items) a (w, s, d, opts) room e some_ =
      let longer = ap (λ xs. length xs) e in
      appended-Nearer dev first n r.durable_at r.dequeued_at o item _ _ d s opts
        (omega (arith, longer, room))

  -- What the first critical section chose, and the second.
  round-Nearer :
      (first last n : ℕ) (o : AsyncWriterOptions) (r : Round) (a : AsyncWriter S)
      → IsStopping dev first o a
      → last - first < pos_part o.checkpoint_interval * 1000000
      → (r.now ≤ last) × (first ≤ r.durable_at)
      → rounds_left dev a ≤ suc n
      → IsNearer dev first o n (after_round r (take_work dev r.now r.dequeued_at a))
  unfolding take_work
  round-Nearer first last n o r a (w, s, d, opts) short (before, after) room =
      let same_interval : interval_ns dev a ≡ pos_part o.checkpoint_interval * 1000000 =
        ap (λ x. pos_part (AsyncWriterOptions.checkpoint_interval x) * 1000000) opts in
      let still : interval_elapsed a.checkpoint_started_ns r.now (interval_ns dev a) ≡ false =
        quiet first last a.checkpoint_started_ns r.now (interval_ns dev a) d before
          (omega (arith, same_interval, short)) in
      elim (Bool-cases (wants_checkpoint dev r.now a)) [
        | inr none_ ↦ rw none_ (
            dequeued-Nearer first n o r a.queue a (w, s, d, opts) room refl
              (none_asked (length a.queue == 0) a.stopping
                (interval_elapsed a.checkpoint_started_ns r.now (interval_ns dev a))
                (a.checkpoint_requested && leb a.requested_barrier a.processed_sequence) s none_))
        | inl some_ ↦ elim (Bool-cases (length a.queue == 0)) [
          | inl empty ↦ rw (some_, s, empty) (left-Nearer dev first n r.durable_at o _ _)
          | inr items ↦
              let exits : (a.stopping && length a.queue == 0) ≡ false = rw (s, items) refl in
              let (req, reached) =
                both_hold a.checkpoint_requested (leb a.requested_barrier a.processed_sequence)
                  (a.stopping && length a.queue == 0) exits (rw still at some_) in
              let one : one_if a.checkpoint_requested ≡ 1 = rw req refl in
              rw (some_, exits)
                (asked-Nearer dev first n r.durable_at o _ _ after s opts reached
                  (omega (arith, one, room)))
        ]
      ]

  take_waiting :
      (t : Thread) (now dequeued_at : ℕ) (a : AsyncWriter S)
      → (t ≡ waiting)
      → take_if_waiting dev t now dequeued_at a ≡ take_work dev now dequeued_at a
  take_waiting t now dequeued_at a e = rw e refl

  take_finished :
      (t : Thread) (now dequeued_at : ℕ) (a : AsyncWriter S)
      → (t ≡ finished)
      → take_if_waiting dev t now dequeued_at a ≡ a
  take_finished t now dequeued_at a e = rw e refl

  complete_finished :
      (t : Thread) (durable_at : ℕ) (a : AsyncWriter S)
      → (t ≡ finished)
      → complete_held dev t durable_at a ≡ a
  complete_finished t durable_at a e = rw e refl

  finished-perform_all :
      (rs : List Round) (a : AsyncWriter S)
      → (a.thread ≡ finished)
      → (perform_all dev (actions_of rs) a).thread ≡ finished
  unfolding perform_all perform
  finished-perform_all [] a e = e
  finished-perform_all (r ∷ rs) a e =
      let stays = take_finished a.thread r.now r.dequeued_at a e in
      let stays' = complete_finished a.thread r.durable_at a e in
      ap (λ b. (perform_all dev (actions_of rs) (complete_held dev b.thread r.durable_at b)).thread)
        stays
      ∙ ap (λ b. (perform_all dev (actions_of rs) b).thread) stays'
      ∙ finished-perform_all rs a e

  rounds-finished :
      (first last : ℕ) (o : AsyncWriterOptions) (rs : List Round) (a : AsyncWriter S)
      → IsStopping dev first o a
      → last - first < pos_part o.checkpoint_interval * 1000000
      → Within first last rs
      → rounds_left dev a ≤ length rs
      → (perform_all dev (actions_of rs) a).thread ≡ finished
  unfolding perform_all perform
  rounds-finished first last o [] a h short within room = absurd (omega (arith, room))
  rounds-finished first last o (r ∷ rs) a h short (before, after, within) room =
      let taken = take_waiting a.thread r.now r.dequeued_at a h.0 in
      let b = after_round r (take_work dev r.now r.dequeued_at a) in
      let finishes : (perform_all dev (actions_of rs) b).thread ≡ finished =
        elim (round-Nearer first last (length rs) o r a h short (before, after) room) [
          | inl done ↦ finished-perform_all rs b done
          | inr (h', room') ↦ rounds-finished first last o rs b h' short within room'
        ] in
      ap (λ c. (perform_all dev (actions_of rs) (complete_held dev c.thread r.durable_at c)).thread)
        taken
      ∙ finishes

  -- Once a writer is stopping, and no client calls it any more, its background thread, from the start
  -- of its loop, comes to its end within a round for each queued item, one for a checkpoint that was
  -- asked for and one for the last checkpoint, whatever the store answers. The rounds and the latest
  -- checkpoint have to lie within less time than the interval of the checkpoints.
  pub stopping-finishes :
      (first last : ℕ) (rs : List Round) (a : AsyncWriter S)
      → (a.thread ≡ waiting)
      → (a.stopping ≡ true)
      → first ≤ a.checkpoint_started_ns
      → last - first < interval_ns dev a
      → Within first last rs
      → rounds_left dev a ≤ length rs
      → (perform_all dev (actions_of rs) a).thread ≡ finished
  stopping-finishes first last rs a w s d short within room =
      rounds-finished first last a.options rs a (w, s, d, refl) short within room

-- ===== src/AsyncWriter/Order.antt =====
-- The sequence numbers and the bytes of the queue.
use tfdb.Prelude.{
  ℕ, ◌+◌, ◌-◌, ◌^◌, ◌≤◌, ◌<◌, min, ◌≡◌, refl, sym, ◌∙◌, false, not, ◌||◌, Option, none, some, List,
  [], ◌∷◌, ◌++◌, arith, ltb, leb, length,
}
use tfdb.Bytes.{ByteView, bytes, null, valid, contents, size}
use tfdb.RingStore.State.{add64, sub64}
use tfdb.AsyncWriter.State.{Item, Thread, holding, AsyncWriter}

abbrev pub IsRun : ℕ → ℕ → List Item → Type 0
IsRun first next [] = first ≡ next
IsRun first next (item ∷ items) = (item.sequence ≡ first) × IsRun (first + 1) next items

abbrev pub bytes_of : List Item → ℕ
bytes_of [] = 0
bytes_of (item ∷ items) = length item.item_bytes + bytes_of items

-- The item that the thread holds comes right after the processed ones.
abbrev pub IsNext : ℕ → ℕ → Option Item → Type 0
IsNext processed first none = first ≡ processed + 1
IsNext processed first (some item) = (item.sequence ≡ processed + 1) × (first ≡ processed + 2)

abbrev pub held : Thread → Option Item
held (holding work) = work.item
held thread = none

-- The queue is a run of sequence numbers that ends at the last submitted one, and starts after the
-- last processed one and the item that the thread holds; its bytes are counted, and both of its
-- bounds kept; the barrier trails what was processed, and at most `limit` items were submitted.
pub record Order (limit : ℕ) (queue : List Item)
    (queued_bytes submitted processed completed durable : ℕ) (capacity_records capacity_bytes : ℕ)
    (held_item : Option Item) : Type 0 where
  pub first : ℕ
  pub queue_run : IsRun first (submitted + 1) queue
  pub held_next : IsNext processed first held_item
  pub bytes_counted : queued_bytes ≡ bytes_of queue
  pub barrier_trails : completed ≤ processed
  pub barrier_durable : durable ≡ completed
  pub bytes_bound : queued_bytes ≤ capacity_bytes
  pub records_bound : length queue ≤ capacity_records
  pub capacity_bound : capacity_bytes < 2 ^ 64
  pub submitted_bound : submitted ≤ limit

abbrev pub IsOrdered : {S : Type 0} → ℕ → AsyncWriter S → Type 0
IsOrdered limit a =
    Order limit a.queue a.queued_bytes a.submitted_sequence a.processed_sequence a.completed_barrier
      a.async_metrics.durable_sequence a.options.queue_capacity_records
      a.options.queue_capacity_bytes (held a.thread)

pub append-IsRun :
    (first next : ℕ) (items : List Item) (item : Item)
    → IsRun first next items
    → (item.sequence ≡ next)
    → IsRun first (item.sequence + 1) (items ++ item ∷ [])
append-IsRun first next [] item h e = (e ∙ sym h, omega arith)
append-IsRun first next (x ∷ items) item (h, k) e =
    (h, append-IsRun (first + 1) next items item k e)

pub bytes_append :
    (items : List Item) (item : Item)
    → bytes_of (items ++ item ∷ []) ≡ bytes_of items + length item.item_bytes
bytes_append [] item = ground arith
bytes_append (x ∷ items) item = rw (bytes_append items item) (ground arith)

pub wrap_small : (a b : ℕ) → a + b < 2 ^ 64 → add64 a b ≡ a + b
wrap_small a b h = ground arith

pub take_small : (a b c : ℕ) → (a ≡ b + c) → a < 2 ^ 64 → sub64 a b ≡ c
take_small a b c e h = ground arith

pub room :
    (records length_ capacity queued size_ : ℕ)
    → queued ≤ capacity
    → ((leb records length_ || ltb (capacity - min queued capacity) size_) ≡ false)
    → (length_ < records) × (queued + size_ ≤ capacity)
room records length_ capacity queued size_ h e = ground arith

pub take_head :
    {limit : ℕ} (item : Item) (items : List Item) (q s p c d cr cb : ℕ)
    → Order limit (item ∷ items) q s p c d cr cb none
    → Order limit items (sub64 q (length item.item_bytes)) s p c d cr cb (some item)
take_head item items q s p c d cr cb h =
    let less : sub64 q (length item.item_bytes) ≡ bytes_of items =
      take_small q (length item.item_bytes) (bytes_of items) h.bytes_counted
        (omega (arith, h.bytes_bound, h.capacity_bound)) in
    record {
      first = h.first + 1;
      queue_run = h.queue_run.1;
      held_next = (h.queue_run.0 ∙ h.held_next, omega (arith, h.held_next));
      bytes_counted = less;
      barrier_trails = h.barrier_trails;
      barrier_durable = h.barrier_durable;
      bytes_bound = rw less (omega (arith, h.bytes_counted, h.bytes_bound));
      records_bound = omega (arith, h.records_bound);
      capacity_bound = h.capacity_bound;
      submitted_bound = h.submitted_bound;
    }

pub contents_size :
    (view : ByteView) → (not (valid view) ≡ false) → length (contents view) ≡ size view
contents_size (bytes bs) v = refl
contents_size (null n) v = ground arith

-- The held item was appended.
pub processed_item :
    {limit : ℕ} (item : Item) (queue : List Item) (q s p c d cr cb : ℕ)
    → Order limit queue q s p c d cr cb (some item)
    → Order limit queue q s item.sequence c d cr cb none
processed_item item queue q s p c d cr cb h = record {
  first = h.first;
  queue_run = h.queue_run;
  held_next = omega (arith, h.held_next.0, h.held_next.1);
  bytes_counted = h.bytes_counted;
  barrier_trails = omega (arith, h.held_next.0, h.barrier_trails);
  barrier_durable = h.barrier_durable;
  bytes_bound = h.bytes_bound;
  records_bound = h.records_bound;
  capacity_bound = h.capacity_bound;
  submitted_bound = h.submitted_bound;
}

-- What was processed was made durable.
pub barrier_reached :
    {limit : ℕ} (queue : List Item) (q s p c d cr cb : ℕ)
    → Order limit queue q s p c d cr cb none
    → Order limit queue q s p p p cr cb none
barrier_reached queue q s p c d cr cb h = record {
  first = h.first;
  queue_run = h.queue_run;
  held_next = h.held_next;
  bytes_counted = h.bytes_counted;
  barrier_trails = omega arith;
  barrier_durable = refl;
  bytes_bound = h.bytes_bound;
  records_bound = h.records_bound;
  capacity_bound = h.capacity_bound;
  submitted_bound = h.submitted_bound;
}

-- An ordered writer whose thread holds nothing, whatever the thread does.
abbrev pub IsIdle : {S : Type 0} → ℕ → AsyncWriter S → Type 0
IsIdle limit a =
    Order limit a.queue a.queued_bytes a.submitted_sequence a.processed_sequence a.completed_barrier
      a.async_metrics.durable_sequence a.options.queue_capacity_records
      a.options.queue_capacity_bytes none

pub raise_limit :
    (limit : ℕ) (queue : List Item) (q s p c d cr cb : ℕ) (item : Option Item)
    → Order limit queue q s p c d cr cb item
    → Order (limit + 1) queue q s p c d cr cb item
raise_limit limit queue q s p c d cr cb item h = record {
  first = h.first;
  queue_run = h.queue_run;
  held_next = h.held_next;
  bytes_counted = h.bytes_counted;
  barrier_trails = h.barrier_trails;
  barrier_durable = h.barrier_durable;
  bytes_bound = h.bytes_bound;
  records_bound = h.records_bound;
  capacity_bound = h.capacity_bound;
  submitted_bound = omega (arith, h.submitted_bound);
}

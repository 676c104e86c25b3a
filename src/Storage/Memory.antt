-- ===== src/Storage/Memory.antt =====
-- `MemoryStorage` of src/memory_storage.cpp: an image in memory that keeps what a flush has made durable
-- apart from what was written since, injects faults, and crashes.
pub mod Crash
pub mod Medium
pub mod Refined
use tfdb.Prelude.{
  ℕ, ◌+◌, ◌-◌, ◌^◌, min, bit_xor, Bool, true, false, not, ◌&&◌, ◌||◌, Option, none, some, List, [],
  ◌∷◌, ◌++◌, ltb, leb, ◌==◌, if◌then◌else◌, length, take, drop, get_or, set, replicate,
}
use tfdb.Status.{ErrorCode, Status, ok, error, Result, returns, fails, is_ok}
use tfdb.Bytes.{ByteView, bytes, valid, contents, store, size as view_size}
use tfdb.RingStore.State.{add64, sub64}
use tfdb.Storage.Exact.{Storage}

pub data StorageOperation : Type 0 where
  read write flush_ : StorageOperation

pub data HookPoint : Type 0 where
  before after : HookPoint

pub record StorageCounters : Type 0 where
  pub read_calls : ℕ
  pub write_calls : ℕ
  pub flush_calls : ℕ
  pub read_bytes : ℕ
  pub write_bytes : ℕ

abbrev pub no_counters : StorageCounters
no_counters = record {
  read_calls = 0;
  write_calls = 0;
  flush_calls = 0;
  read_bytes = 0;
  write_bytes = 0;
}

pub record FaultRule : Type 0 where
  pub operation : StorageOperation
  pub call : ℕ
  pub transfer_before_error : ℕ
  pub result : Status

pub record StorageEvent : Type 0 where
  pub operation : StorageOperation
  pub call : ℕ
  pub offset : ℕ
  pub requested : ℕ
  pub transferred : ℕ
  pub result : Status

pub record WriteFragment : Type 0 where
  pub write_call : ℕ
  pub offset_in_write : ℕ
  pub length_ : ℕ

pub record DirtyWrite : Type 0 where
  pub call : ℕ
  pub offset : ℕ
  pub bytes : List ℕ

-- The hook is no field: it is a parameter of the operations that call it.
pub record MemoryStorage : Type 0 where
  pub volatile_ : List ℕ
  pub durable : List ℕ
  pub is_writable : Bool
  pub faults : List FaultRule
  pub dirty_writes : List DirtyWrite
  pub events_ : List StorageEvent
  pub counters_ : StorageCounters

unfoldable pub memory_storage : ℕ → Bool → MemoryStorage
memory_storage size_ writable = record {
  volatile_ = replicate size_ 0;
  durable = replicate size_ 0;
  is_writable = writable;
  faults = [];
  dirty_writes = [];
  events_ = [];
  counters_ = no_counters;
}

abbrev same_operation : StorageOperation → StorageOperation → Bool
same_operation StorageOperation.read StorageOperation.read = true
same_operation StorageOperation.write StorageOperation.write = true
same_operation StorageOperation.flush_ StorageOperation.flush_ = true
same_operation a b = false

unfoldable pub matching_fault : StorageOperation → ℕ → List FaultRule → Option FaultRule
matching_fault operation call [] = none
matching_fault operation call (rule_ ∷ rules) =
    if same_operation rule_.operation operation && rule_.call == call
    then some rule_
    else matching_fault operation call rules

-- `offset > volatile_.size() || size > volatile_.size() - offset`
abbrev pub outside_image : ℕ → ℕ → List ℕ → Bool
outside_image offset n image = ltb (length image) offset || ltb (sub64 (length image) offset) n

-- The status and the number of bytes that a transfer of `n` bytes comes to under a fault, if any.
abbrev pub faulted_transfer : Option FaultRule → ℕ → Status × ℕ
faulted_transfer none n = (ok, n)
faulted_transfer (some rule_) n =
    if is_ok rule_.result then (ok, min rule_.transfer_before_error n) else (rule_.result, 0)

abbrev pub faulted_flush : Option FaultRule → Status
faulted_flush none = ok
faulted_flush (some rule_) = rule_.result

abbrev pub log_event : StorageOperation → ℕ → ℕ → ℕ → ℕ → Status → MemoryStorage → MemoryStorage
log_event operation call offset requested transferred result m = record m {
  events_ =
      m.events_
      ++ record {
        operation = operation;
        call = call;
        offset = offset;
        requested = requested;
        transferred = transferred;
        result = result;
      }
        ∷ [];
}

-- `size`
abbrev pub size : MemoryStorage → ℕ
size m = length m.volatile_

-- The critical sections of `read_at`, `write_at` and `flush`, with the number of the call.
unfoldable pub read_image : ℕ → ℕ → ℕ → MemoryStorage → Status × ℕ × List ℕ × MemoryStorage
unfolding matching_fault
read_image call offset n m =
    if outside_image offset n m.volatile_
    then (
      error ErrorCode.out_of_range,
      0,
      [],
      log_event StorageOperation.read call offset n 0 (error ErrorCode.out_of_range) m,
    )
    else let (status, transfer) =
        faulted_transfer (matching_fault StorageOperation.read call m.faults) n in
      (
        status,
        transfer,
        take transfer (drop offset m.volatile_),
        log_event StorageOperation.read call offset n transfer status (record m {
          counters_ = record m.counters_ { read_bytes = add64 m.counters_.read_bytes transfer };
        }),
      )

-- The bytes of a write in the image and in the list of dirty writes.
abbrev pub put_bytes : ℕ → ℕ → List ℕ → MemoryStorage → MemoryStorage
put_bytes call offset bs m = if length bs == 0 then m else record m {
  volatile_ = store m.volatile_ offset bs;
  dirty_writes = m.dirty_writes ++ record { call = call; offset = offset; bytes = bs } ∷ [];
}

unfoldable pub write_image : ℕ → ℕ → List ℕ → MemoryStorage → Status × ℕ × MemoryStorage
unfolding matching_fault
write_image call offset bs m =
    if not m.is_writable
    then (
      error ErrorCode.io_error,
      0,
      log_event StorageOperation.write call offset (length bs) 0 (error ErrorCode.io_error) m,
    )
    else if outside_image offset (length bs) m.volatile_
    then (
      error ErrorCode.no_space,
      0,
      log_event StorageOperation.write call offset (length bs) 0 (error ErrorCode.no_space) m,
    )
    else let (status, transfer) =
        faulted_transfer (matching_fault StorageOperation.write call m.faults) (length bs) in
      let put = put_bytes call offset (take transfer bs) m in
      (
        status,
        transfer,
        log_event StorageOperation.write call offset (length bs) transfer status (record put {
          counters_ = record put.counters_ {
            write_bytes = add64 put.counters_.write_bytes transfer;
          };
        }),
      )

-- The image becomes durable, unless a fault was injected.
abbrev pub settle_image : Status → MemoryStorage → MemoryStorage
settle_image ok m = record m { durable = m.volatile_; dirty_writes = [] }
settle_image (error code) m = m

unfoldable pub flush_image : ℕ → MemoryStorage → Status × MemoryStorage
unfolding matching_fault
flush_image call m =
    let status = faulted_flush (matching_fault StorageOperation.flush_ call m.faults) in
    (status, log_event StorageOperation.flush_ call 0 0 0 status (settle_image status m))

abbrev pub count_read : MemoryStorage → MemoryStorage
count_read m = record m {
  counters_ = record m.counters_ { read_calls = add64 m.counters_.read_calls 1 };
}

abbrev pub count_write : MemoryStorage → MemoryStorage
count_write m = record m {
  counters_ = record m.counters_ { write_calls = add64 m.counters_.write_calls 1 };
}

abbrev pub count_flush : MemoryStorage → MemoryStorage
count_flush m = record m {
  counters_ = record m.counters_ { flush_calls = add64 m.counters_.flush_calls 1 };
}

module _ (hook : StorageOperation → HookPoint → ℕ → ℕ → ℕ → MemoryStorage → MemoryStorage) where
  unfoldable pub read_counted : ℕ → ℕ → MemoryStorage → Status × ℕ × List ℕ × MemoryStorage
  unfolding read_image
  read_counted offset n m =
      let call = (count_read m).counters_.read_calls in
      let (status, transferred, buffer, m') =
        read_image call offset n
          (hook StorageOperation.read HookPoint.before call offset n (count_read m)) in
      (status, transferred, buffer, hook StorageOperation.read HookPoint.after call offset n m')

  -- A null buffer is refused before the call is counted. What a buffer holds before a read is not used.
  unfoldable pub read_at : ℕ → ByteView → MemoryStorage → Status × ℕ × List ℕ × MemoryStorage
  unfolding read_counted
  read_at offset output m =
      if not (valid output)
      then (error ErrorCode.invalid_argument, 0, [], m)
      else read_counted offset (view_size output) m

  unfoldable pub write_counted : ℕ → List ℕ → MemoryStorage → Status × ℕ × MemoryStorage
  unfolding write_image
  write_counted offset bs m =
      let call = (count_write m).counters_.write_calls in
      let (status, transferred, m') =
        write_image call offset bs
          (hook StorageOperation.write HookPoint.before call offset (length bs) (count_write m)) in
      (status, transferred, hook StorageOperation.write HookPoint.after call offset (length bs) m')

  unfoldable pub write_at : ℕ → ByteView → MemoryStorage → Status × ℕ × MemoryStorage
  unfolding write_counted
  write_at offset input m =
      if not (valid input)
      then (error ErrorCode.invalid_argument, 0, m)
      else write_counted offset (contents input) m

  unfoldable pub flush : MemoryStorage → Status × MemoryStorage
  unfolding flush_image
  flush m =
      let call = (count_flush m).counters_.flush_calls in
      let (status, m') =
        flush_image call (hook StorageOperation.flush_ HookPoint.before call 0 0 (count_flush m)) in
      (status, hook StorageOperation.flush_ HookPoint.after call 0 0 m')

  -- The backend that `read_exact` and `write_exact` use.
  abbrev pub storage : Storage MemoryStorage
  storage = record {
    read_at = λ offset n. read_at offset (bytes (replicate n 0));
    write_at = λ offset bs. write_at offset (bytes bs);
  }

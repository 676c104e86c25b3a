-- ===== src/Storage/Memory/Medium.antt =====
-- What a `MemoryStorage` is to its user: a medium with an image, the part of it that is durable, and the
-- writes in between, of which a crash may keep pieces; and what each call does to it.
use tfdb.Prelude.{ℕ, ◌<◌, ◌≡◌, ◌⊎◌, List, [], ◌∷◌, ◌++◌, ◌==◌, length, take, drop, if◌then◌else◌}
use tfdb.Status.{Status, ok, error}
use tfdb.Bytes.{ByteView, contents, store}
use tfdb.RingStore.State.{add64}
use tfdb.Storage.Memory.{
  MemoryStorage, FaultRule, WriteFragment, DirtyWrite, StorageOperation, HookPoint, read_at,
  write_at, flush,
}
use tfdb.Storage.Memory.Crash.{
  add_fault, clear_faults, crash_discard_volatile, copy_writes, crash_persist_all_dirty,
  crash_materialize, corrupt_durable, corrupt_volatile, reset_counters, flip,
}

pub record Medium : Type 0 where
  pub image : List ℕ
  pub durable_image : List ℕ
  pub pending : List DirtyWrite

abbrev pub medium : MemoryStorage → Medium
medium m = record { image = m.volatile_; durable_image = m.durable; pending = m.dirty_writes }

pub data MemoryCall : Type 0 where
  call_read : ℕ → ByteView → MemoryCall
  call_write : ℕ → ByteView → MemoryCall
  call_flush call_discard call_persist call_clear_faults call_reset : MemoryCall
  call_materialize : List WriteFragment → MemoryCall
  call_add_fault : FaultRule → MemoryCall
  call_corrupt_durable call_corrupt_volatile : ℕ → ℕ → MemoryCall

-- A status, a number of bytes transferred, and the bytes that were read.
pub record Reply : Type 0 where
  pub status : Status
  pub transferred : ℕ
  pub bytes : List ℕ

abbrev pub answer : Status → ℕ → List ℕ → Reply
answer status transferred bs = record { status = status; transferred = transferred; bytes = bs }

module _ (hook : StorageOperation → HookPoint → ℕ → ℕ → ℕ → MemoryStorage → MemoryStorage) where
  unfoldable pub run_call : MemoryCall → MemoryStorage → Reply × MemoryStorage
  run_call (call_read offset output) m =
      let r = read_at hook offset output m in (answer r.0 r.1 r.2, r.3)
  run_call (call_write offset input) m =
      let r = write_at hook offset input m in (answer r.0 r.1 [], r.2)
  run_call call_flush m = let r = flush hook m in (answer r.0 0 [], r.1)
  run_call call_discard m = (answer ok 0 [], crash_discard_volatile m)
  run_call call_persist m = (answer ok 0 [], crash_persist_all_dirty m)
  run_call call_clear_faults m = (answer ok 0 [], clear_faults m)
  run_call call_reset m = (answer ok 0 [], reset_counters m)
  run_call (call_materialize fragments) m =
      let r = crash_materialize fragments m in (answer r.0 0 [], r.1)
  run_call (call_add_fault rule_) m = (answer ok 0 [], add_fault rule_ m)
  run_call (call_corrupt_durable offset xor_mask) m =
      let r = corrupt_durable offset xor_mask m in (answer r.0 0 [], r.1)
  run_call (call_corrupt_volatile offset xor_mask) m =
      let r = corrupt_volatile offset xor_mask m in (answer r.0 0 [], r.1)

  unfoldable pub run_calls : List MemoryCall → MemoryStorage → List Reply × MemoryStorage
  unfolding run_call
  run_calls [] m = ([], m)
  run_calls (c ∷ cs) m =
      let r = run_call c m in let rest = run_calls cs r.1 in (r.0 ∷ rest.0, rest.1)

-- Bytes in the image, that a flush or a crash will settle.
abbrev pub put : ℕ → ℕ → List ℕ → Medium → Medium
put call offset bs m = if length bs == 0 then m else record {
  image = store m.image offset bs;
  durable_image = m.durable_image;
  pending = m.pending ++ record { call = call; offset = offset; bytes = bs } ∷ [];
}

-- Both images are `bs`, and nothing is between them.
abbrev pub settled_on : List ℕ → Medium
settled_on bs = record { image = bs; durable_image = bs; pending = [] }

abbrev pub Among : DirtyWrite → List DirtyWrite → Type 0
Among w [] = ⊥
Among w (v ∷ vs) = (v ≡ w) ⊎ Among w vs

-- The part of a pending write that a fragment asks for.
abbrev pub IsPiece : List DirtyWrite → WriteFragment → DirtyWrite → Type 0
IsPiece pending f p =
    (w : DirtyWrite) × Among w pending
    × (w.call ≡ f.write_call)
    × (p.offset ≡ add64 w.offset f.offset_in_write)
    × (p.bytes ≡ take f.length_ (drop f.offset_in_write w.bytes))

abbrev pub ArePieces : List DirtyWrite → List WriteFragment → List DirtyWrite → Type 0
ArePieces pending [] [] = Unit {0}
ArePieces pending (f ∷ fs) (p ∷ ps) = IsPiece pending f p × ArePieces pending fs ps
ArePieces pending [] (p ∷ ps) = ⊥
ArePieces pending (f ∷ fs) [] = ⊥

-- What happens only if the call returns ok.
abbrev pub IfOk : Status → (Medium → Medium → Type 0) → Medium → Medium → Type 0
IfOk ok Then m n = Then m n
IfOk (error code) Then m n = n ≡ m

abbrev pub Does : MemoryCall → Reply → Medium → Medium → Type 0
Does (call_read offset output) r m n =
    (n ≡ m) × (r.bytes ≡ take r.transferred (drop offset m.image))
Does (call_write offset input) r m n =
    (call : ℕ) × (n ≡ put call offset (take r.transferred (contents input)) m)
Does call_flush r m n = IfOk r.status (λ m n. n ≡ settled_on m.image) m n
Does call_discard r m n = n ≡ settled_on m.durable_image
Does call_persist r m n = n ≡ settled_on (copy_writes m.pending m.durable_image)
Does (call_materialize fragments) r m n =
    IfOk r.status
      (λ m n.
        (pieces : List DirtyWrite) × ArePieces m.pending fragments pieces
        × (n ≡ settled_on (copy_writes pieces m.durable_image)))
      m n
Does call_clear_faults r m n = n ≡ m
Does (call_add_fault rule_) r m n = n ≡ m
Does call_reset r m n = n ≡ record m { pending = [] }
Does (call_corrupt_durable offset xor_mask) r m n =
    IfOk r.status
      (λ m n.
        offset < length m.durable_image
        × (n ≡ record m { durable_image = flip offset xor_mask m.durable_image }))
      m n
Does (call_corrupt_volatile offset xor_mask) r m n =
    IfOk r.status
      (λ m n. offset < length m.image × (n ≡ record m { image = flip offset xor_mask m.image })) m n

-- A run of calls with their replies, one after the other.
pub data Trace : List MemoryCall → List Reply → Medium → Medium → Type 0 where
  here : {m : Medium} → Trace [] [] m m
  next :
      {c : MemoryCall} {r : Reply} {cs : List MemoryCall} {rs : List Reply} {m n o : Medium}
      → Does c r m n
      → Trace cs rs n o
      → Trace (c ∷ cs) (r ∷ rs) m o

-- ===== src/Tests/Storage.antt =====
-- A backend in memory that transfers one byte at a time, and a `MemoryStorage` that crashes.
use tfdb.Prelude.{
  true, min, take, drop, zero, suc, ap, ℕ, ◌≡◌, refl, sym, some, List, [], ◌∷◌, arith,
}
use tfdb.Status.{returns, Status, ok}
use tfdb.Bytes.{bytes, store}
use tfdb.Storage.Exact.{write_loop, read_loop, read_exact, Storage, write_exact}
use tfdb.Storage.Readback.{ReadsImage, read_exact-write_exact}
use tfdb.Storage.Memory.{
  write_at, flush, StorageOperation, HookPoint, MemoryStorage, memory_storage,
}
use tfdb.Storage.Memory.Crash.{crash_discard_volatile, corrupt_volatile}
use tfdb.Storage.Memory.Medium.{
  MemoryCall, call_write, call_flush, call_discard, call_corrupt_volatile, medium, Trace,
}
use tfdb.Storage.Memory.Medium.{run_calls}
use tfdb.Storage.Memory.Refined.{run_calls-refines}
use tfdb.Storage.Image.{store-nothing, StoresWhatItTransfers, NeverInterrupts, write_exact-stores}

abbrev first_byte : ℕ → List ℕ → List ℕ → Status × ℕ × List ℕ
first_byte offset [] memory = (ok, 0, memory)
first_byte offset (b ∷ bs) memory = (ok, 1, store memory offset (b ∷ []))

abbrev read_byte : ℕ → ℕ → List ℕ → Status × ℕ × List ℕ × List ℕ
read_byte offset n memory = (ok, min n 1, take (min n 1) (drop offset memory), memory)

abbrev byte_storage : Storage (List ℕ)
byte_storage = record { read_at = read_byte; write_at = first_byte }

byte_storage_stores : StoresWhatItTransfers byte_storage (λ memory. memory)
byte_storage_stores offset [] memory = sym (store-nothing memory offset)
byte_storage_stores offset (b ∷ bs) memory = refl

byte_storage_goes_on : NeverInterrupts byte_storage (λ memory. memory)
byte_storage_goes_on offset [] memory = refl
byte_storage_goes_on offset (b ∷ bs) memory = refl

write_exact-stores_example :
    (status : Status) × (memory : List ℕ) × (write_exact byte_storage 2 1
        (bytes (7 ∷ 8 ∷ []))
        (0 ∷ 0 ∷ 0 ∷ 0 ∷ [])
      ≡ some (status, memory))
    × ((status ≡ ok) → memory ≡ store (0 ∷ 0 ∷ 0 ∷ 0 ∷ []) 1 (7 ∷ 8 ∷ []))
write_exact-stores_example =
    write_exact-stores byte_storage (λ memory. memory) byte_storage_stores byte_storage_goes_on 1
      (7 ∷ 8 ∷ []) (0 ∷ 0 ∷ 0 ∷ 0 ∷ []) (omega arith)

take-take : (n : ℕ) (xs : List ℕ) → take n (take n xs) ≡ take n xs
take-take zero xs = refl
take-take (suc n) [] = refl
take-take (suc n) (x ∷ xs) = ap (λ t. x ∷ t) (take-take n xs)

byte_storage_reads : ReadsImage byte_storage (λ memory. memory)
byte_storage_reads offset n memory = (refl, take-take (min n 1) (drop offset memory))

written_bytes :
    write_exact byte_storage 2 1 (bytes (7 ∷ 8 ∷ [])) (0 ∷ 0 ∷ 0 ∷ 0 ∷ [])
    ≡ some (ok, 0 ∷ 7 ∷ 8 ∷ 0 ∷ [])
unfolding write_exact write_loop store
written_bytes = refl

read_bytes :
    read_exact byte_storage 2 1 2 (0 ∷ 7 ∷ 8 ∷ 0 ∷ [])
    ≡ some (returns (7 ∷ 8 ∷ []), 0 ∷ 7 ∷ 8 ∷ 0 ∷ [])
unfolding read_exact read_loop
read_bytes = refl

abbrev two_bytes : List ℕ
two_bytes = 7 ∷ 8 ∷ []

read_exact-write_exact_example : two_bytes ≡ two_bytes
read_exact-write_exact_example =
    read_exact-write_exact byte_storage (λ memory. memory) byte_storage_reads byte_storage_stores
      byte_storage_goes_on 2 1 two_bytes two_bytes (0 ∷ 0 ∷ 0 ∷ 0 ∷ []) (0 ∷ 7 ∷ 8 ∷ 0 ∷ [])
      (0 ∷ 7 ∷ 8 ∷ 0 ∷ []) (omega arith) (omega arith) written_bytes read_bytes

abbrev no_hook : StorageOperation → HookPoint → ℕ → ℕ → ℕ → MemoryStorage → MemoryStorage
no_hook operation point call offset n m = m

-- The second write is lost in the crash, the first one is not; then a byte is flipped.
abbrev calls : List MemoryCall
calls =
    call_write 1 (bytes (7 ∷ 8 ∷ []))
    ∷ call_flush
    ∷ call_write 2 (bytes (9 ∷ []))
    ∷ call_discard
    ∷ call_corrupt_volatile 1 1
    ∷ []

run_calls-refines_example :
    Trace calls
      (run_calls no_hook calls (memory_storage 4 true)).0
      (medium (memory_storage 4 true))
      (medium (run_calls no_hook calls (memory_storage 4 true)).1)
run_calls-refines_example =
    run_calls-refines no_hook (λ o p c f n m. (refl, refl, refl)) calls (memory_storage 4 true)

crashed : (run_calls no_hook calls (memory_storage 4 true)).1.volatile_ ≡ 0 ∷ 6 ∷ 8 ∷ 0 ∷ []
unfolding run_calls crash_discard_volatile write_at flush memory_storage store corrupt_volatile
crashed = refl

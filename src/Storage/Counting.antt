-- ===== src/Storage/Counting.antt =====
-- `CountingStorage` of src/counting_storage.cpp, which counts the calls and the bytes of a backend.
use tfdb.Status.{Status}
use tfdb.RingStore.State.{add64}
use tfdb.Storage.Exact.{Storage}
use tfdb.Storage.Memory.{StorageCounters, no_counters}

pub record CountingStorage (S : Type 0) : Type 0 where
  pub delegate : S
  pub counters : StorageCounters

module _ {S : Type 0} (dev : Storage S) (delegate_flush : S → Status × S) where
  unfoldable pub counting : Storage (CountingStorage S)
  counting = record {
    read_at = λ offset n c.
        let (status, transferred, buffer, d) = dev.read_at offset n c.delegate in
        (
          status,
          transferred,
          buffer,
          record {
            delegate = d;
            counters = record c.counters {
              read_calls = add64 c.counters.read_calls 1;
              read_bytes = add64 c.counters.read_bytes transferred;
            };
          },
        );
    write_at = λ offset bs c.
        let (status, transferred, d) = dev.write_at offset bs c.delegate in
        (
          status,
          transferred,
          record {
            delegate = d;
            counters = record c.counters {
              write_calls = add64 c.counters.write_calls 1;
              write_bytes = add64 c.counters.write_bytes transferred;
            };
          },
        );
  }

  unfoldable pub counting_flush : CountingStorage S → Status × CountingStorage S
  counting_flush c =
      let (status, d) = delegate_flush c.delegate in
      (
        status,
        record {
          delegate = d;
          counters = record c.counters { flush_calls = add64 c.counters.flush_calls 1 };
        },
      )

  unfoldable pub counting_reset : CountingStorage S → CountingStorage S
  counting_reset c = record c { counters = no_counters }

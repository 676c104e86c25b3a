-- ===== src/RingStore/Medium.antt =====
-- What is asked of a backend for durability: a write that returns ok is held at its place, and a flush
-- that returns ok makes all that is held durable. Readings of the clock change neither.
use tfdb.Prelude.{ℕ, ◌≡◌, List}
use tfdb.Status.{ok}
use tfdb.RingStore.State.{Device}

pub record Medium {S : Type 0} (dev : Device S) : Type 1 where
  pub Holds : ℕ → List ℕ → S → Type 0
  pub IsFlushed : S → Type 0
  pub write-Holds :
      (offset : ℕ) (bs : List ℕ) (s : S)
      → ((dev.write offset bs s).0 ≡ ok)
      → Holds offset bs (dev.write offset bs s).1
  pub flush-Holds :
      (offset : ℕ) (bs : List ℕ) (s : S) → Holds offset bs s → Holds offset bs (dev.flush s).1
  pub flush-IsFlushed : (s : S) → ((dev.flush s).0 ≡ ok) → IsFlushed (dev.flush s).1
  pub now-Holds :
      (offset : ℕ) (bs : List ℕ) (s : S) → Holds offset bs s → Holds offset bs (dev.now s).1
  pub now-IsFlushed : (s : S) → IsFlushed s → IsFlushed (dev.now s).1

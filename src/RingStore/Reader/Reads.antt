-- ===== src/RingStore/Reader/Reads.antt =====
-- Steps that read a backend: each returns a value or fails, and may change the state of the backend,
-- which stands for all that happens outside between two reads, the writer's progress included.
use tfdb.Prelude.{Bool}
use tfdb.Status.{ErrorCode, Status, ok, error, Result, returns, fails, reject_if}

abbrev pub Reads {ℓ} : Type 0 → Type ℓ → Type ℓ
Reads S A = S → Result A × S

abbrev pub result_of : Status → Result (Unit {0})
result_of ok = returns tt
result_of (error c) = fails c

module _ {S : Type 0} where
  unfoldable pub after_read {ℓ κ} :
      {A : Type ℓ} {B : Type κ} → Result A × S → (A → Reads S B) → Result B × S
  after_read (returns a, s) next = next a s
  after_read (fails c, s) next = (fails c, s)

  infixl 5 ◌>>=◌
  unfoldable pub ◌>>=◌ {ℓ κ} : {A : Type ℓ} {B : Type κ} → Reads S A → (A → Reads S B) → Reads S B
  unfolding after_read
  m >>= next = λ s. after_read (m s) next

  infixl 5 ◌>>◌
  unfoldable pub ◌>>◌ {ℓ} : {B : Type ℓ} → Reads S (Unit {0}) → Reads S B → Reads S B
  unfolding after_read
  m >> next = λ s. after_read (m s) (λ _. next)

  unfoldable pub give {ℓ} : {A : Type ℓ} → A → Reads S A
  give a = λ s. (returns a, s)

  unfoldable pub stop {ℓ} : {A : Type ℓ} → ErrorCode → Reads S A
  stop c = λ s. (fails c, s)

  unfoldable pub lift {ℓ} : {A : Type ℓ} → Result A → Reads S A
  lift r = λ s. (r, s)

  abbrev pub reject : Bool → ErrorCode → Reads S (Unit {0})
  reject t c = lift (reject_if t c)

  abbrev pub require_ok : Status → Reads S (Unit {0})
  require_ok status = lift (result_of status)

  unfoldable pub handled {ℓ} : {A : Type ℓ} → Result A × S → (ErrorCode → Reads S A) → Result A × S
  handled (returns a, s) handler = (returns a, s)
  handled (fails c, s) handler = handler c s

  -- `if (!status.ok()) return handler(status);`
  unfoldable pub catch {ℓ} : {A : Type ℓ} → Reads S A → (ErrorCode → Reads S A) → Reads S A
  unfolding handled
  catch m handler = λ s. handled (m s) handler

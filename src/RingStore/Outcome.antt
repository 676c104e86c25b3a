-- ===== src/RingStore/Outcome.antt =====
-- What holds after a chain of steps on a state: one condition if the chain returns `ok`, another, of
-- the error's code and the state, if it stops at an error.
use tfdb.Prelude.{Bool, true, false, Option, none, some, sym, ◌≡◌, refl, if◌then◌else◌}
use tfdb.Status.{ErrorCode, Result, returns, fails, Status, ok, error}
use tfdb.RingStore.State.{◌>=>◌}

pub data Outcome {ℓ κ} {A : Type ℓ} (Good : A → Type κ) (Bad : ErrorCode → A → Type κ)
    : Status × A → Type (ℓ ⊔ κ) where
  returned : {s : A} → Good s → Outcome Good Bad (ok, s)
  stopped : {c : ErrorCode} {s : A} → Bad c s → Outcome Good Bad (error c, s)

module _ {ℓ κ} {A : Type ℓ} where
  pub chain-Outcome :
      {Good Between : A → Type κ} {Bad : ErrorCode → A → Type κ} {m : Status × A}
      {f : A → Status × A}
      → Outcome Between Bad m
      → ((s : A) → Between s → Outcome Good Bad (f s))
      → Outcome Good Bad (m >=> f)
  unfolding ◌>=>◌
  chain-Outcome (returned h) next = next _ h
  chain-Outcome (stopped h) next = stopped h

  pub weaken-Outcome :
      {Good Better : A → Type κ} {Bad Worse : ErrorCode → A → Type κ} {m : Status × A}
      → Outcome Better Worse m
      → ((s : A) → Better s → Good s)
      → ((c : ErrorCode) (s : A) → Worse c s → Bad c s)
      → Outcome Good Bad m
  weaken-Outcome (returned h) good bad = returned (good _ h)
  weaken-Outcome (stopped h) good bad = stopped (bad _ _ h)

  -- Both conditions of a step that was looked at twice.
  pub both-Outcome :
      {Good Fine : A → Type κ} {Bad Worse : ErrorCode → A → Type κ} {m : Status × A}
      → Outcome Good Bad m
      → Outcome Fine Worse m
      → Outcome (λ a. Good a × Fine a) Worse m
  both-Outcome (returned h) (returned k) = returned (h, k)
  both-Outcome (stopped h) (stopped k) = stopped k

  pub if-Outcome :
      {Good : A → Type κ} {Bad : ErrorCode → A → Type κ} (t : Bool) {a b : Status × A}
      → ((t ≡ true) → Outcome Good Bad a)
      → ((t ≡ false) → Outcome Good Bad b)
      → Outcome Good Bad (if t then a else b)
  if-Outcome true h k = h refl
  if-Outcome false h k = k refl

  pub option-Outcome :
      {Good : A → Type κ} {Bad : ErrorCode → A → Type κ} {B : Type κ} (o : Option B)
      {a : Status × A} {f : B → Status × A}
      → Outcome Good Bad a
      → ((b : B) → (o ≡ some b) → Outcome Good Bad (f b))
      → Outcome Good Bad (elim o [ none ↦ a | some b ↦ f b ])
  option-Outcome none h k = h
  option-Outcome (some b) h k = k b refl

  pub result-Outcome :
      {Good : A → Type κ} {Bad : ErrorCode → A → Type κ} {B : Type κ} (r : Result B)
      {f : B → Status × A} {g : ErrorCode → Status × A}
      → ((c : ErrorCode) → Outcome Good Bad (g c))
      → ((b : B) → Outcome Good Bad (f b))
      → Outcome Good Bad (elim r [ fails c ↦ g c | returns b ↦ f b ])
  result-Outcome (fails c) h k = h c
  result-Outcome (returns b) h k = k b

  pub status-Outcome :
      {Good : A → Type κ} {Bad : ErrorCode → A → Type κ} (status : Status) {s : A}
      → Good s
      → ((c : ErrorCode) → Bad c s)
      → Outcome Good Bad (status, s)
  status-Outcome ok h k = returned h
  status-Outcome (error c) h k = stopped (k c)

  pub always-Outcome : {Good : A → Type κ} {m : Status × A} → Outcome Good (λ _. Good) m → Good m.1
  always-Outcome (returned h) = h
  always-Outcome (stopped h) = h

  -- The condition of the branch that was taken.
  pub ok-Outcome :
      {Good : A → Type κ} {Bad : ErrorCode → A → Type κ} {m : Status × A}
      → Outcome Good Bad m
      → (m.0 ≡ ok)
      → Good m.1
  ok-Outcome (returned h) e = h
  ok-Outcome (stopped h) e = absurd cc

  pub error-Outcome :
      {Good : A → Type κ} {Bad : ErrorCode → A → Type κ} {m : Status × A} {c : ErrorCode}
      → Outcome Good Bad m
      → (m.0 ≡ error c)
      → Bad c m.1
  error-Outcome (returned h) e = absurd cc
  error-Outcome {c = c'} (stopped {c = c} h) e = let same : c ≡ c' = cc in rw (sym same) h

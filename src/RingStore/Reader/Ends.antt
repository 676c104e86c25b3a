-- ===== src/RingStore/Reader/Ends.antt =====
-- What holds of the value that a step of the reader returns, if it returns one.
use tfdb.Prelude.{Bool, true, false, ◌≡◌, refl, if◌then◌else◌}
use tfdb.Status.{ErrorCode, Result, returns, fails, reject_if}
use tfdb.RingStore.Reader.Reads.{Reads, after_read, handled}

pub data Ends {ℓ κ} {A : Type ℓ} {S : Type 0} (Good : A → Type κ)
    : Result A × S → Type (ℓ ⊔ κ) where
  well : {a : A} {s : S} → Good a → Ends Good (returns a, s)
  badly : {c : ErrorCode} {s : S} → Ends Good (fails c, s)

module _ {S : Type 0} where
  pub any-Ends {ℓ} : {A : Type ℓ} (r : Result A × S) → Ends {A = A} (λ _. Unit {0}) r
  any-Ends (returns a, s) = well tt
  any-Ends (fails c, s) = badly

  pub after-Ends {ℓ κ μ ν} :
      {A : Type ℓ} {B : Type κ} {Between : A → Type μ} {Good : B → Type ν} {r : Result A × S}
      {next : A → Reads S B}
      → Ends Between r
      → ((a : A) (s : S) → Between a → Ends Good (next a s))
      → Ends Good (after_read r next)
  unfolding after_read
  after-Ends (well g) k = k _ _ g
  after-Ends badly k = badly

  -- A test that must fail for the step to go on.
  pub reject-Ends : (t : Bool) (c : ErrorCode) {s : S} → Ends (λ u. t ≡ false) (reject_if t c, s)
  reject-Ends true c = badly
  reject-Ends false c = well refl

  pub then-Ends {ℓ κ μ} :
      {A : Type ℓ} {B : Type μ} {Good : A → Type κ} (r : Result B × S) {next : B → Reads S A}
      → ((b : B) (s : S) → Ends Good (next b s))
      → Ends Good (after_read r next)
  unfolding after_read
  then-Ends (returns b, s) k = k b s
  then-Ends (fails c, s) k = badly

  pub lift-Ends {ℓ κ} :
      {A : Type ℓ} {Good : A → Type κ} (r : Result A) {s : S}
      → ((a : A) → (r ≡ returns a) → Good a)
      → Ends Good (r, s)
  lift-Ends (returns a) k = well (k a refl)
  lift-Ends (fails c) k = badly

  pub handled-Ends {ℓ κ} :
      {A : Type ℓ} {Good : A → Type κ} {r : Result A × S} {handler : ErrorCode → Reads S A}
      → Ends Good r
      → ((c : ErrorCode) (s : S) → Ends Good (handler c s))
      → Ends Good (handled r handler)
  unfolding handled
  handled-Ends (well g) k = well g
  handled-Ends badly k = k _ _

  pub if-Ends {ℓ κ} :
      {A : Type ℓ} {Good : A → Type κ} (t : Bool) {a b : Result A × S}
      → ((t ≡ true) → Ends Good a)
      → ((t ≡ false) → Ends Good b)
      → Ends Good (if t then a else b)
  if-Ends true h k = h refl
  if-Ends false h k = k refl

  pub value-Ends {ℓ κ} :
      {A : Type ℓ} {Good : A → Type κ} {r : Result A × S} {a : A}
      → Ends Good r
      → (r.0 ≡ returns a)
      → Good a
  value-Ends {a = a} (well {a = b} g) e = let same : a ≡ b = cc in rw same g
  value-Ends badly e = absurd cc

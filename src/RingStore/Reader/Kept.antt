-- ===== src/RingStore/Reader/Kept.antt =====
-- A condition on the state of the visitor, along the steps of a query.
use tfdb.Prelude.{◌≡◌, refl, Bool, true, false, if◌then◌else◌}
use tfdb.Status.{ErrorCode, Result, returns, fails}
use tfdb.RingStore.Reader.Ends.{Ends, well, badly}
use tfdb.RingStore.Reader.Events.{Session, Flow, proceed, after_result}

-- A condition on the visitor's state after a step.
pub data Kept {S V : Type 0} (Good : V → Type 0) : Flow × Session S V → Type 0 where
  kept : {m : Flow × Session S V} → Good m.1.visited → Kept Good m

module _ {S V : Type 0} {Good : V → Type 0} where
  pub proceed-Kept :
      (m : Flow × Session S V) {next : Session S V → Flow × Session S V}
      → Kept Good m
      → ((q : Session S V) → Good q.visited → Kept Good (next q))
      → Kept Good (proceed m next)
  unfolding proceed
  proceed-Kept (Flow.continues, q) (kept h) k = k q h
  proceed-Kept (Flow.finishes status, q) (kept h) k = kept h

  pub with_read-Kept :
      {A : Type 0} {Between : A → Type 0} (r : Result A × S) (q : Session S V)
      {handler : ErrorCode → Session S V → Flow × Session S V}
      {next : A → Session S V → Flow × Session S V}
      → Ends Between r
      → Good q.visited
      → ((code : ErrorCode) (q' : Session S V) → Good q'.visited → Kept Good (handler code q'))
      → ((a : A) (q' : Session S V) → Between a → Good q'.visited → Kept Good (next a q'))
      → Kept Good (after_result r q handler next)
  unfolding after_result
  with_read-Kept (returns a, s) q (well b) h k l = l a _ b h
  with_read-Kept (fails code, s) q badly h k l = k code _ h

  pub if-Kept :
      (t : Bool) {m n : Flow × Session S V}
      → ((t ≡ true) → Kept Good m)
      → ((t ≡ false) → Kept Good n)
      → Kept Good (if t then m else n)
  if-Kept true h k = h refl
  if-Kept false h k = k refl

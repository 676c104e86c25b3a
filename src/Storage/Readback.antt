-- ===== src/Storage/Readback.antt =====
-- `read_exact` over a backend that reads its image, and after a `write_exact`.
use tfdb.Prelude.{
  ℕ, zero, suc, ◌+◌, ◌-◌, ◌^◌, ◌≤◌, ◌<◌, ◌≡◌, refl, sym, ap, ◌∙◌, inl, inr, Option, some, none,
  List, [], ◌∷◌, ◌++◌, arith, ltb, ◌==◌, Bool-cases, length, take, drop,
}
use tfdb.Status.{Status, ok, error, Result, returns, fails}
use tfdb.Bytes.{bytes, store}
use tfdb.Bytes.Store.{drop-drop, load-store}
use tfdb.RingStore.State.{add64}
use tfdb.Storage.Exact.{
  Storage, is_retry, after_bytes, read_round, read_loop, read_exact, write_exact,
}
use tfdb.Storage.Image.{StoresWhatItTransfers, NeverInterrupts, write_exact-stores}

take_nil : (n : ℕ) → take {A = ℕ} n [] ≡ []
take_nil zero = refl
take_nil (suc n) = refl

take_plus : (a b : ℕ) (xs : List ℕ) → take a xs ++ take b (drop a xs) ≡ take (a + b) xs
take_plus zero b xs = let e : 0 + b ≡ b = omega arith in rw e refl
take_plus (suc a) b [] = let e : suc a + b ≡ suc (a + b) = omega arith in rw e (take_nil b)
take_plus (suc a) b (x ∷ xs) =
    let e : suc a + b ≡ suc (a + b) = omega arith in rw e (ap (λ t. x ∷ t) (take_plus a b xs))

module _ {S : Type 0} (dev : Storage S) (image : S → List ℕ) where
  -- A read changes no byte of the image, and the bytes that it says it has transferred are the image's.
  abbrev pub ReadsImage : Type 0
  ReadsImage =
      (offset n : ℕ) (s : S)
      → (image (dev.read_at offset n s).3 ≡ image s)
        × (take (dev.read_at offset n s).1 (dev.read_at offset n s).2
            ≡ take (dev.read_at offset n s).1 (drop offset (image s)))

  -- A round that ends in bytes has gone on, after a transfer within the buffer.
  goes_on :
      (status : Status) (n left : ℕ) (after s' : S) (bs : List ℕ)
      (next : Option (Result (List ℕ) × S))
      → (read_round dev status n left after next ≡ some (returns bs, s'))
      → (n ≤ left) × (next ≡ some (returns bs, s'))
  goes_on ok n left after s' bs next e = elim (Bool-cases (n == 0)) [
    | inl stuck ↦ (let wrong = rw stuck at e in absurd cc)
    | inr moved ↦ elim (Bool-cases (ltb left n)) [
      | inl over ↦ (let wrong = rw (moved, over) at e in absurd cc)
      | inr within ↦ (ground arith, rw (moved, within) at e)
    ]
  ]
  goes_on (error c) n left after s' bs next e = elim (Bool-cases (is_retry (error c) n)) [
    | inl again ↦ (ground arith, rw again at e)
    | inr fails_ ↦ (let wrong = rw fails_ at e in absurd cc)
  ]

  -- The bytes of the round, and those of the rest.
  parts :
      (first bs : List ℕ) (rest : Option (Result (List ℕ) × S)) (s' : S)
      → (after_bytes dev first rest ≡ some (returns bs, s'))
      → (later : List ℕ) × (rest ≡ some (returns later, s')) × (bs ≡ first ++ later)
  parts first bs none s' e = absurd cc
  parts first bs (some (fails code, s)) s' e = absurd cc
  parts first bs (some (returns later, s)) s' e = (later, cc, cc)

  read_loop-image :
      ReadsImage
      → (rounds offset done left : ℕ) (s s' : S) (bs : List ℕ) → offset + done + left < 2 ^ 64
      → (read_loop dev rounds offset done left s ≡ some (returns bs, s'))
      → bs ≡ take left (drop (offset + done) (image s))
  unfolding read_loop
  read_loop-image reads rounds offset done zero s s' bs small e = cc
  read_loop-image reads zero offset done (suc left) s s' bs small e = absurd cc
  read_loop-image reads (suc rounds) offset done (suc left) s s' bs small e =
      let r = dev.read_at (add64 offset done) (suc left) s in
      let here : add64 offset done ≡ offset + done = omega (arith, small) in
      let (within, next) = goes_on r.0 r.1 (suc left) r.3 s' bs _ e in
      let (later, rest, joined) =
        parts (take r.1 r.2) bs (read_loop dev rounds offset (done + r.1) (suc left - r.1) r.3) s'
          next in
      let (same_image, first) = reads (add64 offset done) (suc left) s in
      let first' : take r.1 r.2 ≡ take r.1 (drop (offset + done) (image s)) =
        first ∙ ap (λ o. take r.1 (drop o (image s))) here in
      let later' =
        read_loop-image reads rounds offset (done + r.1) (suc left - r.1) r.3 s' later
          (omega (arith, small, within)) rest in
      let place : offset + (done + r.1) ≡ offset + done + r.1 = omega arith in
      let later'' : later ≡ take (suc left - r.1) (drop r.1 (drop (offset + done) (image s))) =
        later'
        ∙ ap (λ i. take (suc left - r.1) (drop (offset + (done + r.1)) i)) same_image
        ∙ ap (λ o. take (suc left - r.1) (drop o (image s))) place
        ∙ ap (λ t. take (suc left - r.1) t) (sym (drop-drop (offset + done) r.1 (image s))) in
      let whole : r.1 + (suc left - r.1) ≡ suc left = omega (arith, within) in
      joined
      ∙ ap (λ t. t ++ later) first'
      ∙ ap (λ t. take r.1 (drop (offset + done) (image s)) ++ t) later''
      ∙ take_plus r.1 (suc left - r.1) (drop (offset + done) (image s))
      ∙ ap (λ m. take m (drop (offset + done) (image s))) whole

  -- Over a backend that stores what it says it has transferred, reads its image and is not interrupted
  -- in its writes, what `read_exact` returns after a `write_exact` of the same place that returned ok
  -- is what was written, however its reads are cut and interrupted. The bytes lie in the image, which
  -- is smaller than 2 ^ 64.
  pub read_exact-write_exact :
      ReadsImage
      → StoresWhatItTransfers dev image
      → NeverInterrupts dev image
      → (rounds offset : ℕ) (input bs : List ℕ) (s s1 s2 : S)
      → offset + length input ≤ length (image s)
      → length (image s) < 2 ^ 64
      → (write_exact dev (length input) offset (bytes input) s ≡ some (ok, s1))
      → (read_exact dev rounds offset (length input) s1 ≡ some (returns bs, s2))
      → bs ≡ input
  unfolding read_exact
  read_exact-write_exact reads keeps calm rounds offset input bs s s1 s2 fits small wrote read =
      let (status, s', e, stored) =
        write_exact-stores dev image keeps calm offset input s (omega (arith, fits, small)) in
      let done_ : status ≡ ok = cc in
      let same_state : s' ≡ s1 = cc in
      let image1 : image s1 ≡ store (image s) offset input =
        ap image (sym same_state) ∙ stored done_ in
      let start : offset + 0 ≡ offset = omega arith in
      read_loop-image reads rounds offset 0 (length input) s1 s2 bs (omega (arith, fits, small))
        read
      ∙ ap (λ o. take (length input) (drop o (image s1))) start
      ∙ ap (λ i. take (length input) (drop offset i)) image1
      ∙ load-store (image s) offset input fits

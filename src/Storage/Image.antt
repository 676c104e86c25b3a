-- ===== src/Storage/Image.antt =====
-- `write_exact` over a backend that stores what it says it has transferred.
use tfdb.Prelude.{
  ℕ, zero, suc, ◌+◌, ◌^◌, ◌≤◌, ◌<◌, ◌≡◌, refl, sym, ap, ◌∙◌, inl, inr, false, not, Option, some,
  List, [], ◌∷◌, ◌++◌, arith, ltb, ◌==◌, if◌then◌else◌, Bool-cases, length, take, drop,
  take-append-drop, length-take, length-drop,
}
use tfdb.Status.{ErrorCode, Status, ok, error, is_ok}
use tfdb.Bytes.{bytes, store, overlay}
use tfdb.RingStore.State.{add64}
use tfdb.Storage.Exact.{Storage, is_interrupted, is_retry, write_loop, write_exact}

overlay-append :
    (xs ys buf : List ℕ) → store (overlay xs buf) (length xs) ys ≡ overlay (xs ++ ys) buf
unfolding overlay store
overlay-append [] ys buf = refl
overlay-append (x ∷ xs) ys [] = refl
overlay-append (x ∷ xs) ys (b ∷ buf) = ap (λ bs. x ∷ bs) (overlay-append xs ys buf)

suc_plus : (n m : ℕ) → suc n + m ≡ suc (n + m)
suc_plus n m = omega arith

-- Two stores, one right after the other, are one.
store-append :
    (buf xs ys : List ℕ) (offset : ℕ)
    → store (store buf offset xs) (offset + length xs) ys ≡ store buf offset (xs ++ ys)
unfolding store
store-append buf xs ys zero =
    let none_before : 0 + length xs ≡ length xs = omega arith in
    rw none_before (overlay-append xs ys buf)
store-append [] xs ys (suc offset) = rw (suc_plus offset (length xs)) refl
store-append (b ∷ buf) xs ys (suc offset) =
    rw (suc_plus offset (length xs)) (ap (λ bs. b ∷ bs) (store-append buf xs ys offset))

pub store-nothing : (buf : List ℕ) (offset : ℕ) → store buf offset [] ≡ buf
unfolding store overlay
store-nothing buf zero = refl
store-nothing [] (suc offset) = refl
store-nothing (b ∷ buf) (suc offset) = ap (λ bs. b ∷ bs) (store-nothing buf offset)

module _ {S : Type 0} (dev : Storage S) (image : S → List ℕ) where
  -- Whatever its status, a call has stored the bytes that it says it has transferred, in front.
  abbrev pub StoresWhatItTransfers : Type 0
  StoresWhatItTransfers =
      (offset : ℕ) (bs : List ℕ) (s : S)
      → image (dev.write_at offset bs s).2
        ≡ store (image s) offset (take (dev.write_at offset bs s).1 bs)

  rejoined :
      (buf bs : List ℕ) (n offset : ℕ)
      → n ≤ length bs
      → store (store buf offset (take n bs)) (offset + n) (drop n bs) ≡ store buf offset bs
  rejoined buf bs n offset h =
      let joined = store-append buf (take n bs) (drop n bs) offset in
      let taken : length (take n bs) ≡ n = omega (arith, length-take n bs, h) in
      let whole = take-append-drop n bs in let joined' = rw taken at joined in rw whole at joined'

  -- A round that ends in success has gone on, after a transfer within the bytes that it was given.
  goes_on :
      (status : Status) (n size : ℕ) (after s' : S) (next : Option (Status × S))
      → ((if is_retry status n
            then next
            else if not (is_ok status)
            then some (status, after)
            else if n == 0
            then some (error ErrorCode.io_error, after)
            else if ltb size n
            then some (error ErrorCode.internal_error, after)
            else next)
          ≡ some (ok, s'))
      → (n ≤ size) × (next ≡ some (ok, s'))
  goes_on ok n size after s' next e = elim (Bool-cases (n == 0)) [
    | inl stuck ↦ (let wrong = rw stuck at e in absurd cc)
    | inr moved ↦ elim (Bool-cases (ltb size n)) [
      | inl over ↦ (let wrong = rw (moved, over) at e in absurd cc)
      | inr within ↦ (ground arith, rw (moved, within) at e)
    ]
  ]
  goes_on (error c) n size after s' next e = elim (Bool-cases (is_retry (error c) n)) [
    | inl again ↦ (ground arith, rw again at e)
    | inr fails_ ↦ (let wrong = rw fails_ at e in absurd cc)
  ]

  -- The loop stores the rest where the transferred bytes end.
  write_loop-stores :
      StoresWhatItTransfers
      → (rounds offset done : ℕ) (rest : List ℕ) (s s' : S) → offset + done + length rest < 2 ^ 64
      → (write_loop dev rounds offset done rest s ≡ some (ok, s'))
      → image s' ≡ store (image s) (offset + done) rest
  unfolding write_loop
  write_loop-stores keeps rounds offset done [] s s' small e =
      let same : s ≡ s' = cc in rw (store-nothing (image s) (offset + done)) (ap image (sym same))
  write_loop-stores keeps zero offset done (b ∷ rest) s s' small e = absurd cc
  write_loop-stores keeps (suc rounds) offset done (b ∷ rest) s s' small e =
      let bs : List ℕ = b ∷ rest in
      let r = dev.write_at (add64 offset done) bs s in
      let here : add64 offset done ≡ offset + done = omega (arith, small) in
      let go : r.1 ≤ length bs
          → (write_loop dev rounds offset (done + r.1) (drop r.1 bs) r.2 ≡ some (ok, s'))
          → image s' ≡ store (image s) (offset + done) bs =
        λ le next.
          let later =
            write_loop-stores keeps rounds offset (done + r.1) (drop r.1 bs) r.2 s'
              (omega (arith, small, length-drop r.1 bs, le)) next in
          let assoc : offset + (done + r.1) ≡ offset + done + r.1 = omega arith in
          let stored = keeps (add64 offset done) bs s in
          later
          ∙ ap (λ i. store i (offset + (done + r.1)) (drop r.1 bs))
              (stored ∙ ap (λ o. store (image s) o (take r.1 bs)) here)
          ∙ ap (λ o. store (store (image s) (offset + done) (take r.1 bs)) o (drop r.1 bs)) assoc
          ∙ rejoined (image s) bs r.1 (offset + done) le in
      let (le, next) = goes_on r.0 r.1 (length bs) r.2 s' _ e in go le next

  abbrev pub NeverInterrupts : Type 0
  NeverInterrupts =
      (offset : ℕ) (bs : List ℕ) (s : S) → is_interrupted (dev.write_at offset bs s).0 ≡ false

  abbrev Returns : Option (Status × S) → Type 0
  Returns result = (status : Status) × (s' : S) × (result ≡ some (status, s'))

  round-Returns :
      (status : Status) (n size : ℕ) (after : S) (next : Option (Status × S))
      → (is_interrupted status ≡ false)
      → (1 ≤ n → n ≤ size → Returns next)
      → Returns (
          if is_retry status n
          then next
          else if not (is_ok status)
          then some (status, after)
          else if n == 0
          then some (error ErrorCode.io_error, after)
          else if ltb size n
          then some (error ErrorCode.internal_error, after)
          else next)
  round-Returns (error c) n size after next calm more = rw calm (error c, after, refl)
  round-Returns ok n size after next calm more = elim (Bool-cases (n == 0)) [
    | inl stuck ↦ rw stuck (error ErrorCode.io_error, after, refl)
    | inr moved ↦ elim (Bool-cases (ltb size n)) [
      | inl over ↦ rw (moved, over) (error ErrorCode.internal_error, after, refl)
      | inr within ↦ rw (moved, within) (more (ground arith) (ground arith))
    ]
  ]

  write_loop-Returns :
      NeverInterrupts
      → (rounds offset done : ℕ) (rest : List ℕ) (s : S) → length rest ≤ rounds
      → Returns (write_loop dev rounds offset done rest s)
  unfolding write_loop
  write_loop-Returns calm zero offset done [] s h = (ok, s, refl)
  write_loop-Returns calm (suc rounds) offset done [] s h = (ok, s, refl)
  write_loop-Returns calm zero offset done (b ∷ rest) s h = absurd (omega arith)
  write_loop-Returns calm (suc rounds) offset done (b ∷ rest) s h =
      let bs : List ℕ = b ∷ rest in
      let r = dev.write_at (add64 offset done) bs s in
      round-Returns r.0 r.1 (length bs) r.2 _ (calm (add64 offset done) bs s) (λ some_byte le.
        write_loop-Returns calm rounds offset (done + r.1) (drop r.1 bs) r.2
          (omega (arith, length-drop r.1 bs, some_byte, h)))

  -- Over a backend that stores what it says it has transferred and is not interrupted, `write_exact`
  -- returns after as many rounds as there are bytes at most, and if it returns `ok` it has stored all
  -- of the bytes at the offset and nothing else, provided that the last offset fits in 64 bits.
  pub write_exact-stores :
      StoresWhatItTransfers
      → NeverInterrupts
      → (offset : ℕ) (input : List ℕ) (s : S) → offset + length input < 2 ^ 64
      → (status : Status) × (s' : S) × (write_exact dev (length input) offset (bytes input) s
          ≡ some (status, s'))
        × ((status ≡ ok) → image s' ≡ store (image s) offset input)
  unfolding write_exact
  write_exact-stores keeps calm offset input s small =
      let (status, s', e) = write_loop-Returns calm (length input) offset 0 input s (omega arith) in
      let start : offset + 0 ≡ offset = omega arith in
      (
        status,
        s',
        e,
        λ fine.
            let e' : write_loop dev (length input) offset 0 input s ≡ some (ok, s') =
              rw fine at e in
            let stored =
              write_loop-stores keeps (length input) offset 0 input s s' (omega (arith, small))
                e' in
            rw start at stored,
      )

-- ===== src/Bytes/Store.antt =====
-- Stores into a buffer, and the loads that read them back.
use Prim.Native.Nat.add
use tfdb.Prelude.{
  ℕ, zero, suc, ◌+◌, ◌^◌, ◌≤◌, ◌<◌, List, [], ◌∷◌, ◌++◌, take, drop, length, ◌≡◌, refl, ap, arith,
}
use tfdb.Bytes.{store, overlay, le_bytes, get32, put32}
use tfdb.Bytes.Endian.{gather-le_bytes}

module _ {ℓ} {A : Type ℓ} where
  drop-nil : (n : ℕ) → drop {A = A} n [] ≡ []
  drop-nil zero = refl
  drop-nil (suc n) = refl

  pub drop-drop : (m n : ℕ) (xs : List A) → drop n (drop m xs) ≡ drop (m + n) xs
  drop-drop zero n xs = rw add.zero
  drop-drop (suc m) n [] = rw add.suc (drop-nil n)
  drop-drop (suc m) n (x ∷ xs) = rw add.suc (drop-drop m n xs)

overlay-split :
    (bs buf : List ℕ) → length bs ≤ length buf → overlay bs buf ≡ bs ++ drop (length bs) buf
unfolding overlay
overlay-split [] buf h = refl
overlay-split (b ∷ bs) [] h = absurd (omega arith)
overlay-split (b ∷ bs) (x ∷ buf) h = ap (λ t. b ∷ t) (overlay-split bs buf (omega arith))

-- A store keeps what stands before it and after it.
pub store-split :
    (buf : List ℕ) (offset : ℕ) (bs : List ℕ)
    → offset + length bs ≤ length buf
    → store buf offset bs ≡ take offset buf ++ (bs ++ drop (length bs) (drop offset buf))
unfolding store
store-split buf zero bs h = overlay-split bs buf (omega arith)
store-split [] (suc offset) bs h = absurd (omega arith)
store-split (x ∷ buf) (suc offset) bs h = ap (λ t. x ∷ t) (store-split buf offset bs (omega arith))

pub take-store :
    (buf : List ℕ) (offset : ℕ) (bs : List ℕ) → take offset (store buf offset bs) ≡ take offset buf
unfolding store
take-store buf zero bs = refl
take-store [] (suc offset) bs = refl
take-store (x ∷ buf) (suc offset) bs = ap (λ t. x ∷ t) (take-store buf offset bs)

drop-overlay : (bs buf : List ℕ) → drop (length bs) (overlay bs buf) ≡ drop (length bs) buf
unfolding overlay
drop-overlay [] buf = refl
drop-overlay (b ∷ bs) [] = refl
drop-overlay (b ∷ bs) (x ∷ buf) = drop-overlay bs buf

pub drop-store :
    (buf : List ℕ) (offset : ℕ) (bs : List ℕ)
    → drop (length bs) (drop offset (store buf offset bs)) ≡ drop (length bs) (drop offset buf)
unfolding store
drop-store buf zero bs = drop-overlay bs buf
drop-store [] (suc offset) bs = refl
drop-store (x ∷ buf) (suc offset) bs = drop-store buf offset bs

length-overlay : (bs buf : List ℕ) → length (overlay bs buf) ≡ length buf
unfolding overlay
length-overlay [] buf = refl
length-overlay (b ∷ bs) [] = refl
length-overlay (b ∷ bs) (x ∷ buf) = ap suc (length-overlay bs buf)

pub length-store :
    (buf : List ℕ) (offset : ℕ) (bs : List ℕ) → length (store buf offset bs) ≡ length buf
unfolding store
length-store buf zero bs = length-overlay bs buf
length-store [] (suc offset) bs = refl
length-store (x ∷ buf) (suc offset) bs = ap suc (length-store buf offset bs)

-- A store at a place where as many bytes were stored before hides those.
overlay-overlay :
    (bs cs buf : List ℕ) → length bs ≡ length cs → overlay bs (overlay cs buf) ≡ overlay bs buf
unfolding overlay
overlay-overlay [] [] buf h = refl
overlay-overlay [] (c ∷ cs) buf h = absurd (omega arith)
overlay-overlay (b ∷ bs) [] buf h = absurd (omega arith)
overlay-overlay (b ∷ bs) (c ∷ cs) [] h = refl
overlay-overlay (b ∷ bs) (c ∷ cs) (x ∷ buf) h =
    ap (λ t. b ∷ t) (overlay-overlay bs cs buf (omega arith))

pub store-store :
    (buf : List ℕ) (offset : ℕ) (bs cs : List ℕ)
    → length bs ≡ length cs
    → store (store buf offset cs) offset bs ≡ store buf offset bs
unfolding store
store-store buf zero bs cs h = overlay-overlay bs cs buf h
store-store [] (suc offset) bs cs h = refl
store-store (x ∷ buf) (suc offset) bs cs h = ap (λ t. x ∷ t) (store-store buf offset bs cs h)

take-overlay : (bs buf : List ℕ) → length bs ≤ length buf → take (length bs) (overlay bs buf) ≡ bs
unfolding overlay
take-overlay [] buf h = refl
take-overlay (b ∷ bs) [] h = absurd (omega arith)
take-overlay (b ∷ bs) (x ∷ buf) h = ap (λ t. b ∷ t) (take-overlay bs buf (omega arith))

pub load-store :
    (buf : List ℕ) (offset : ℕ) (bs : List ℕ)
    → offset + length bs ≤ length buf
    → take (length bs) (drop offset (store buf offset bs)) ≡ bs
unfolding store
load-store buf zero bs h = take-overlay bs buf (omega arith)
load-store [] (suc offset) bs h = absurd (omega arith)
load-store (x ∷ buf) (suc offset) bs h = load-store buf offset bs (omega arith)

-- `get32` returns what `put32` stored.
pub get32-put32 :
    (buf : List ℕ) (offset value : ℕ)
    → offset + 4 ≤ length buf
    → value < 2 ^ 32
    → get32 (put32 buf offset value) offset ≡ value
unfolding get32 put32
get32-put32 buf offset value h fits =
    rw (load-store buf offset (le_bytes 4 value) h) (gather-le_bytes 4 value fits)

pub take-all : (n : ℕ) (bs : List ℕ) → length bs ≡ n → take n bs ≡ bs
take-all zero [] h = refl
take-all zero (b ∷ bs) h = absurd (omega arith)
take-all (suc n) [] h = refl
take-all (suc n) (b ∷ bs) h = ap (λ t. b ∷ t) (take-all n bs (omega arith))

module _ {ℓ} {A : Type ℓ} where
  pub take-exact : (n : ℕ) (xs ys : List A) → length xs ≡ n → take n (xs ++ ys) ≡ xs
  take-exact zero [] ys h = refl
  take-exact zero (x ∷ xs) ys h = absurd (omega arith)
  take-exact (suc n) [] ys h = absurd (omega arith)
  take-exact (suc n) (x ∷ xs) ys h = ap (λ t. x ∷ t) (take-exact n xs ys (omega arith))

  pub drop-exact : (n : ℕ) (xs ys : List A) → length xs ≡ n → drop n (xs ++ ys) ≡ ys
  drop-exact zero [] ys h = refl
  drop-exact zero (x ∷ xs) ys h = absurd (omega arith)
  drop-exact (suc n) [] ys h = absurd (omega arith)
  drop-exact (suc n) (x ∷ xs) ys h = drop-exact n xs ys (omega arith)

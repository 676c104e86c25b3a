-- ===== src/Bytes/Bits.antt =====
-- `|` of a number and a shifted field, as a sum.
use Prim.Native.Nat.{digits, differ, bit_or-bitwise, bit_xor-bitwise}
use native.Mathlib.Nat.{pow-suc}
use tfdb.Prelude.{
  ℕ, zero, suc, ◌+◌, ◌*◌, ◌/◌, ◌%◌, ◌^◌, ◌≤◌, ◌<◌, max, bit_or, bit_xor, ◌≡◌, refl, ap, sym, ◌∙◌,
  inl, inr, lt_or_ge, arith,
}

module _ (z : ℕ → ℕ) (f : ℕ → ℕ → ℕ) where
  -- One digit more than the first number can have is a zero.
  digits_next : (n a b : ℕ) → a ≤ n → digits z f (suc n) a b ≡ digits z f n a b
  digits_next zero zero b h = refl
  digits_next (suc n) zero b h = refl
  digits_next (suc n) (suc a) b h =
      ap (λ (t : ℕ). t * 2 + f (suc a % 2) (b % 2))
        (digits_next n (suc a / 2) (b / 2) (omega arith))
  digits_next zero (suc a) b h = absurd (omega arith)

  digits_from : (n a b : ℕ) → a ≤ n → digits z f n a b ≡ digits z f a a b
  digits_from zero a b h = let none_left : a ≡ 0 = omega arith in rw none_left refl
  digits_from (suc n) a b h = elim (lt_or_ge n a) [
    | inl full ↦ (let last : a ≡ suc n = omega arith in rw last refl)
    | inr more ↦ digits_next n a b more ∙ digits_from n a b more
  ]

  -- So the count of digits does not matter once it covers the first number.
  digits_enough : (n m a b : ℕ) → a ≤ n → a ≤ m → digits z f n a b ≡ digits z f m a b
  digits_enough n m a b p q = digits_from n a b p ∙ sym (digits_from m a b q)

zero-bit_or : (b : ℕ) → bit_or 0 b ≡ b
zero-bit_or b = bit_or-bitwise 0 b

-- The lowest digit of `|`.
pub bit_or_low : (a b : ℕ) → bit_or a b ≡ max (a % 2) (b % 2) + 2 * bit_or (a / 2) (b / 2)
bit_or_low (suc a) b =
    let fewer =
      digits_enough (λ d. d) max a (suc a / 2) (suc a / 2) (b / 2) (omega arith) (omega arith) in
    omega (arith, fewer, bit_or-bitwise (suc a / 2) (b / 2), bit_or-bitwise (suc a) b)
bit_or_low zero b = omega (arith, zero-bit_or (b / 2), zero-bit_or b)

shifted_half : (q k : ℕ) → q * 2 ^ suc k ≡ 2 * (q * 2 ^ k)
shifted_half q k =
    let twice : q * 2 ^ suc k ≡ q * (2 ^ k * 2) = ap (λ (power : ℕ). q * power) (pow-suc 2 k) in
    omega (arith, twice)

-- `low | (q << k)` is a sum when `low` fits in `k` bits.
pub bit_or-disjoint : (k low q : ℕ) → low < 2 ^ k → bit_or low (q * 2 ^ k) ≡ low + q * 2 ^ k
bit_or-disjoint zero low q fits =
    let empty : low ≡ 0 = omega arith in rw empty (omega (arith, zero-bit_or (q * 2 ^ 0)))
bit_or-disjoint (suc k) low q fits = omega (
  arith,
  bit_or_low low (q * 2 ^ suc k),
  shifted_half q k,
  ap (λ (t : ℕ). bit_or (low / 2) t) (half_of_shifted q k),
  bit_or-disjoint k (low / 2) q (omega (arith, pow-suc 2 k)),
)
  where
    half_of_shifted : (q k : ℕ) → q * 2 ^ suc k / 2 ≡ q * 2 ^ k
    half_of_shifted q k = omega (arith, shifted_half q k)

zero-bit_xor : (b : ℕ) → bit_xor 0 b ≡ b
zero-bit_xor b = bit_xor-bitwise 0 b

-- The lowest digit of `^`.
pub bit_xor_low : (a b : ℕ) → bit_xor a b ≡ differ (a % 2) (b % 2) + 2 * bit_xor (a / 2) (b / 2)
bit_xor_low (suc a) b =
    let fewer =
      digits_enough (λ d. d) differ a (suc a / 2) (suc a / 2) (b / 2) (omega arith) (omega arith) in
    omega (arith, fewer, bit_xor-bitwise (suc a / 2) (b / 2), bit_xor-bitwise (suc a) b)
bit_xor_low zero b = omega (arith, zero-bit_xor (b / 2), zero-bit_xor b)

differ-le : (x y : ℕ) → x < 2 → y < 2 → differ x y < 2
differ-le zero y h k = k
differ-le (suc x) zero h k = h
differ-le (suc zero) (suc y) h k = omega arith
differ-le (suc (suc x)) (suc y) h k = absurd (omega arith)

-- `^` stays within the width of its arguments.
pub bit_xor-lt : (k a b : ℕ) → a < 2 ^ k → b < 2 ^ k → bit_xor a b < 2 ^ k
bit_xor-lt zero a b h k = let left : a ≡ 0 = omega arith in rw left (omega (arith, zero-bit_xor b))
bit_xor-lt (suc k) a b p q = omega (
  arith,
  bit_xor_low a b,
  differ-le (a % 2) (b % 2) (omega arith) (omega arith),
  pow-suc 2 k,
  bit_xor-lt k (a / 2) (b / 2) (omega (arith, pow-suc 2 k)) (omega (arith, pow-suc 2 k)),
)

-- ===== src/Bytes/Endian.antt =====
-- The little-endian fields: a load of what was stored, and their ranges.
use native.Mathlib.Nat.{pow-suc}
use native.Mathlib.Numerals.{towards_suc}
use tfdb.Prelude.{
  ℕ, zero, suc, ◌+◌, ◌*◌, ◌/◌, ◌^◌, ◌≤◌, ◌<◌, bit_or, ◌≡◌, ap, arith, List, [], ◌∷◌, ℤ, pos, negsuc,
}
use tfdb.Bytes.{le_bytes, gather, to_u64, to_i64}
use tfdb.Bytes.Bits.{bit_or-disjoint}

abbrev pub IsBytes : List ℕ → Type 0
IsBytes [] = Unit {0}
IsBytes (b ∷ bs) = (b < 256) × IsBytes bs

-- The number that bytes stand for.
le_value : List ℕ → ℕ
le_value [] = 0
le_value (b ∷ bs) = b + 256 * le_value bs

wider : (shift : ℕ) → 2 ^ (shift + 8) ≡ 256 * 2 ^ shift
wider shift = simp towards_suc (omega (arith, pow-suc 2 shift))

byte_room : (b p : ℕ) → b < 256 → b * p + p ≤ 256 * p
byte_room b p h = grind arith

gather-le_value :
    (shift value : ℕ) (bs : List ℕ)
    → value < 2 ^ shift
    → IsBytes bs
    → gather shift value bs ≡ value + 2 ^ shift * le_value bs
unfolding gather le_value
gather-le_value shift value [] fits h = omega arith
gather-le_value shift value (b ∷ bs) fits h = omega (
  arith,
  bit_or-disjoint shift value b fits,
  ap (λ (t : ℕ). t * le_value bs) (wider shift),
  gather-le_value (shift + 8) (bit_or value (b * 2 ^ shift)) bs
      (omega (arith, bit_or-disjoint shift value b fits, wider shift, byte_room b (2 ^ shift) h.0))
      h.1,
)

le_bytes-IsBytes : (n value : ℕ) → IsBytes (le_bytes n value)
unfolding le_bytes
le_bytes-IsBytes zero value = tt
le_bytes-IsBytes (suc n) value = (omega arith, le_bytes-IsBytes n (value / 256))

le_value-le_bytes : (n value : ℕ) → value < 256 ^ n → le_value (le_bytes n value) ≡ value
unfolding le_value le_bytes
le_value-le_bytes zero value fits = omega arith
le_value-le_bytes (suc n) value fits =
    omega (arith, le_value-le_bytes n (value / 256) (omega (arith, pow-suc 256 n)))

-- The bytes of a value that fits are gathered to that value.
pub gather-le_bytes : (n value : ℕ) → value < 256 ^ n → gather 0 0 (le_bytes n value) ≡ value
gather-le_bytes n value fits = omega (
  arith,
  gather-le_value 0 0 (le_bytes n value) (omega arith) (le_bytes-IsBytes n value),
  le_value-le_bytes n value fits,
)

-- The range of `int64_t`.
abbrev pub IsI64 : ℤ → Type 0
IsI64 (pos n) = n < 2 ^ 63
IsI64 (negsuc n) = n < 2 ^ 63

pub to_u64-lt : (t : ℤ) → to_u64 t < 2 ^ 64
unfolding to_u64
to_u64-lt (pos n) = omega arith
to_u64-lt (negsuc n) = omega arith

-- The conversions between `int64_t` and `uint64_t` are inverse.
pub to_i64-to_u64 : (t : ℤ) → IsI64 t → to_i64 (to_u64 t) ≡ t
unfolding to_i64 to_u64
to_i64-to_u64 (pos n) h = ground arith
to_i64-to_u64 (negsuc n) h = ground arith

-- So a time that is stored as eight bytes is loaded again.
pub to_i64-gather : (t : ℤ) → IsI64 t → to_i64 (gather 0 0 (le_bytes 8 (to_u64 t))) ≡ t
to_i64-gather t h = rw (gather-le_bytes 8 (to_u64 t) (to_u64-lt t)) (to_i64-to_u64 t h)

-- ===== src/RingStore/Skew.antt =====
-- `delta_exceeds` and the distance of two times.
use tfdb.Prelude.{
  ℕ, ◌+◌, ◌-◌, ◌%◌, ◌^◌, ◌≡◌, inl, inr, false, not, ◌&&◌, ◌||◌, arith, ltb, Bool-cases, ℤ, pos,
  negsuc, pos_part, ltb_ℤ,
}
use tfdb.Bytes.{to_u64}
use tfdb.Bytes.Endian.{IsI64}
use tfdb.RingStore.State.{sub64}
use tfdb.RingStore.Append.{delta_exceeds}

-- How far `later` is after `earlier`, and 0 if it is not.
abbrev pub distance : ℤ → ℤ → ℕ
distance (pos a) (pos b) = b - a
distance (negsuc a) (pos b) = b + a + 1
distance (negsuc a) (negsuc b) = a - b
distance (pos a) (negsuc b) = 0

-- Without a wrap, of times that do not decrease.
sub64-distance :
    (earlier later : ℤ)
    → IsI64 earlier
    → IsI64 later
    → (ltb_ℤ later earlier ≡ false)
    → sub64 (to_u64 later) (to_u64 earlier) ≡ distance earlier later
unfolding to_u64
sub64-distance (pos a) (pos b) h k e = ground arith
sub64-distance (negsuc a) (pos b) h k e = ground arith
sub64-distance (negsuc a) (negsuc b) h k e = ground arith
sub64-distance (pos a) (negsuc b) h k e = ground arith

-- Of 64-bit times, `delta_exceeds` tells whether the later time is before the earlier one or further
-- after it than an allowed distance that is not negative; a negative one allows everything.
pub delta_exceeds-distance :
    (earlier later allowed : ℤ)
    → IsI64 earlier
    → IsI64 later
    → IsI64 allowed
    → delta_exceeds earlier later allowed ≡ (
        not (ltb_ℤ allowed (pos 0))
        && (ltb_ℤ later earlier || ltb (pos_part allowed) (distance earlier later)))
unfolding delta_exceeds to_u64
delta_exceeds-distance earlier later (pos n) h k l =
    let exact : n % 2 ^ 64 ≡ n = omega (arith, l) in
    elim (Bool-cases (ltb_ℤ later earlier)) [
      | inl e ↦ rw e (ground arith)
      | inr e ↦ rw (e, sub64-distance earlier later h k e, exact) (ground arith)
    ]
delta_exceeds-distance earlier later (negsuc n) h k l = ground arith

-- ===== src/Crc/Range.antt =====
-- The range of `crc32c`, which is a `uint32_t`.
use tfdb.Prelude.{
  ℕ, zero, suc, ◌/◌, ◌^◌, ◌<◌, bit_and, bit_xor, Bool, true, ◌&&◌, ltb, List, [], ◌∷◌, get_or, ◌≡◌,
  refl, arith,
}
use tfdb.Bytes.Bits.{bit_xor-lt}
use tfdb.Crc.{table, crc32c_step, crc32c_update, crc32c, crc32c_init}

all_lt : ℕ → List ℕ → Bool
all_lt bound [] = true
all_lt bound (x ∷ xs) = ltb x bound && all_lt bound xs

table_fits : all_lt (2 ^ 32) table ≡ true
unfolding all_lt table
table_fits = refl

get_or-lt :
    (bound : ℕ) (xs : List ℕ) (i : ℕ) → all_lt bound xs ≡ true → 0 < bound → get_or xs i 0 < bound
unfolding all_lt
get_or-lt bound [] i h k = k
get_or-lt bound (x ∷ xs) zero h k = ground arith
get_or-lt bound (x ∷ xs) (suc i) h k = get_or-lt bound xs i (ground arith) k

crc32c_step-lt : (state byte : ℕ) → state < 2 ^ 32 → crc32c_step state byte < 2 ^ 32
unfolding crc32c_step
crc32c_step-lt state byte h =
    let index : ℕ = bit_and (bit_xor state byte) 0xff in
    bit_xor-lt 32 (get_or table index 0) (state / 2 ^ 8)
      (get_or-lt (2 ^ 32) table index table_fits (omega arith)) (omega arith)

crc32c_update-lt : (state : ℕ) (bs : List ℕ) → state < 2 ^ 32 → crc32c_update state bs < 2 ^ 32
unfolding crc32c_update
crc32c_update-lt state [] h = h
crc32c_update-lt state (b ∷ bs) h =
    crc32c_update-lt (crc32c_step state b) bs (crc32c_step-lt state b h)

pub crc32c-lt : (bs : List ℕ) → crc32c bs < 2 ^ 32
unfolding crc32c
crc32c-lt bs =
    bit_xor-lt 32 (crc32c_update crc32c_init bs) 0xffff_ffff
      (crc32c_update-lt crc32c_init bs (omega arith)) (omega arith)

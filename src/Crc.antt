-- ===== src/Crc.antt =====
-- CRC32C of src/internal_format.cpp: the table-driven update, its start and end, and the form that
-- reads one four-byte field as zero.
pub mod Laws
pub mod Range
use tfdb.Prelude.{
  ℕ, zero, suc, ◌+◌, ◌-◌, ◌/◌, ◌%◌, ◌^◌, bit_and, bit_xor, List, [], ◌∷◌, map, ◌==◌, if◌then◌else◌,
  get_or, take, drop, length,
}

-- One round of the inner loop that fills the table.
unfoldable pub table_round : ℕ → ℕ
table_round value = bit_xor (value / 2) (if bit_and value 1 == 0 then 0 else 0x82f6_3b78)

unfoldable pub table_rounds : ℕ → ℕ → ℕ
unfolding table_round
table_rounds zero value = value
table_rounds (suc bit) value = table_rounds bit (table_round value)

-- `result[i]` for i = first, first + 1, ...
unfoldable pub fill_table : ℕ → ℕ → List ℕ
unfolding table_rounds
fill_table zero first = []
fill_table (suc n) first = table_rounds 8 first ∷ fill_table n (first + 1)

unfoldable pub table : List ℕ
unfolding fill_table
table = fill_table 256 0

-- `table[(state ^ byte) & 0xff] ^ (state >> 8)`
unfoldable pub crc32c_step : ℕ → ℕ → ℕ
unfolding table
crc32c_step state byte =
    bit_xor (get_or table (bit_and (bit_xor state byte) 0xff) 0) (state / 2 ^ 8)

unfoldable pub crc32c_update : ℕ → List ℕ → ℕ
crc32c_update state [] = state
crc32c_update state (b ∷ bs) = crc32c_update (crc32c_step state b) bs

unfoldable pub crc32c_finish : ℕ → ℕ
crc32c_finish state = bit_xor state 0xffff_ffff

abbrev pub crc32c_init : ℕ
crc32c_init = 0xffff_ffff

unfoldable pub crc32c : List ℕ → ℕ
unfolding crc32c_finish crc32c_update
crc32c bs = crc32c_finish (crc32c_update crc32c_init bs)

unfoldable pub crc32c_with_zeroed_field : List ℕ → ℕ → ℕ
unfolding crc32c_finish crc32c_update
crc32c_with_zeroed_field bs crc_offset =
    let before = crc32c_update crc32c_init (take crc_offset bs) in
    let zeroed = crc32c_update before (0 ∷ 0 ∷ 0 ∷ 0 ∷ []) in
    crc32c_finish (crc32c_update zeroed (drop (crc_offset + 4) bs))

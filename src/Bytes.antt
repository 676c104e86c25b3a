-- ===== src/Bytes.antt =====
-- include/tfdb/bytes.hpp, and the little-endian loads and stores that src/internal_format.cpp and
-- src/record_profile.cpp both define (`put16` to `get64`, `puti64`, `geti64`). A byte is a number
-- below 256, a vector of bytes a list.
pub mod Bits
pub mod Endian
pub mod Store
use tfdb.Prelude.{
  ℕ, zero, suc, ◌+◌, ◌-◌, ◌*◌, ◌/◌, ◌%◌, ◌^◌, ◌<◌, bit_or, Bool, true, false, List, [], ◌∷◌, ◌++◌,
  ◌==◌, ltb, leb, if◌then◌else◌, length, take, drop, ◌≡◌, refl, ℤ, pos, negsuc,
}

-- A view of bytes, or a null pointer with the size that its caller claims.
pub data ByteView : Type 0 where
  bytes : List ℕ → ByteView
  null : ℕ → ByteView

abbrev pub size : ByteView → ℕ
size (bytes bs) = length bs
size (null n) = n

abbrev pub empty : ByteView → Bool
empty v = size v == 0

abbrev pub valid : ByteView → Bool
valid (bytes bs) = true
valid (null n) = n == 0

-- The bytes of a valid view.
abbrev pub contents : ByteView → List ℕ
contents (bytes bs) = bs
contents (null n) = []

-- `static_cast<std::uint8_t>(value >> (i * 8))` for i = 0, 1, ...: the low byte, then the rest.
unfoldable pub le_bytes : ℕ → ℕ → List ℕ
le_bytes zero value = []
le_bytes (suc n) value = value % 256 ∷ le_bytes n (value / 256)

-- Bytes stored over the head of a buffer. A store past its end does nothing here; the program makes
-- none.
unfoldable pub overlay : List ℕ → List ℕ → List ℕ
overlay [] buf = buf
overlay (b ∷ bs) [] = []
overlay (b ∷ bs) (x ∷ buf) = b ∷ overlay bs buf

-- Bytes stored at `out + offset`.
unfoldable pub store : List ℕ → ℕ → List ℕ → List ℕ
unfolding overlay
store buf zero bs = overlay bs buf
store [] (suc offset) bs = []
store (x ∷ buf) (suc offset) bs = x ∷ store buf offset bs

unfoldable pub put16 : List ℕ → ℕ → ℕ → List ℕ
unfolding store le_bytes
put16 out offset value = store out offset (le_bytes 2 value)

unfoldable pub put32 : List ℕ → ℕ → ℕ → List ℕ
unfolding store le_bytes
put32 out offset value = store out offset (le_bytes 4 value)

unfoldable pub put64 : List ℕ → ℕ → ℕ → List ℕ
unfolding store le_bytes
put64 out offset value = store out offset (le_bytes 8 value)

-- `static_cast<std::uint64_t>(value)` of an `int64_t`
unfoldable pub to_u64 : ℤ → ℕ
to_u64 (pos n) = n % 2 ^ 64
to_u64 (negsuc n) = (2 ^ 64 - 1) - n % 2 ^ 64

unfoldable pub puti64 : List ℕ → ℕ → ℤ → List ℕ
unfolding put64 to_u64
puti64 out offset value = put64 out offset (to_u64 value)

-- `value |= in[i] << (i * 8)` over the bytes of a field; `shift` is `i * 8`.
unfoldable pub gather : ℕ → ℕ → List ℕ → ℕ
gather shift value [] = value
gather shift value (b ∷ bs) = gather (shift + 8) (bit_or value (b * 2 ^ shift)) bs

unfoldable pub get16 : List ℕ → ℕ → ℕ
get16 in_ offset = gather 0 0 (take 2 (drop offset in_))

unfoldable pub get32 : List ℕ → ℕ → ℕ
get32 in_ offset = gather 0 0 (take 4 (drop offset in_))

unfoldable pub get64 : List ℕ → ℕ → ℕ
get64 in_ offset = gather 0 0 (take 8 (drop offset in_))

-- The conversion of `geti64`, which never leaves the range of `int64_t`.
unfoldable pub to_i64 : ℕ → ℤ
to_i64 value = if leb value (2 ^ 63 - 1) then pos value else negsuc (2 ^ 64 - 1 - value)

unfoldable pub geti64 : List ℕ → ℕ → ℤ
unfolding get64 to_i64
geti64 in_ offset = to_i64 (get64 in_ offset)

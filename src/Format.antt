-- ===== src/Format.antt =====
-- The version 1 media format, src/internal_format.hpp and src/internal_format.cpp: what the
-- encodings of all structures share. Each structure has a child module.
pub mod Seal
pub mod Volume
pub mod Block
pub mod Index
pub mod Footer
pub mod Partition
use tfdb.Prelude.{
  ℕ, zero, suc, ◌+◌, ◌-◌, ◌*◌, ◌%◌, ◌^◌, ◌<◌, Bool, true, false, not, ◌&&◌, ◌||◌, ◌==◌, ltb, leb,
  if◌then◌else◌, List, [], ◌∷◌, length, take, drop, replicate,
}
use tfdb.Status.{ErrorCode, Result, returns, fails, ◌>>=◌, ◌>>◌, reject_if}
use tfdb.Bytes.{get16, get32, put32, store}
use tfdb.Crc.{crc32c, crc32c_with_zeroed_field}

abbrev pub format_major : ℕ
format_major = 1

abbrev pub format_minor : ℕ
format_minor = 0

abbrev pub volume_header_copy_size : ℕ
volume_header_copy_size = 4096

abbrev pub volume_header_encoded_size : ℕ
volume_header_encoded_size = 256

abbrev pub volume_prefix_size : ℕ
volume_prefix_size = 8192

abbrev pub partition_header_region_size : ℕ
partition_header_region_size = 4096

abbrev pub partition_header_encoded_size : ℕ
partition_header_encoded_size = 1024

abbrev pub partition_footer_region_size : ℕ
partition_footer_region_size = 4096

abbrev pub partition_footer_encoded_size : ℕ
partition_footer_encoded_size = 256

abbrev pub block_header_encoded_size : ℕ
block_header_encoded_size = 128

abbrev pub index_entry_encoded_size : ℕ
index_entry_encoded_size = 48

abbrev pub feature_descriptor_size : ℕ
feature_descriptor_size = 40

-- "TFDBVOL1", "TFDBPAR1", "TFDBBLK1", "TFDBFTR1"
abbrev pub volume_magic : List ℕ
volume_magic = b'T' ∷ b'F' ∷ b'D' ∷ b'B' ∷ b'V' ∷ b'O' ∷ b'L' ∷ b'1' ∷ []

abbrev pub partition_magic : List ℕ
partition_magic = b'T' ∷ b'F' ∷ b'D' ∷ b'B' ∷ b'P' ∷ b'A' ∷ b'R' ∷ b'1' ∷ []

abbrev pub block_magic : List ℕ
block_magic = b'T' ∷ b'F' ∷ b'D' ∷ b'B' ∷ b'B' ∷ b'L' ∷ b'K' ∷ b'1' ∷ []

abbrev pub footer_magic : List ℕ
footer_magic = b'T' ∷ b'F' ∷ b'D' ∷ b'B' ∷ b'F' ∷ b'T' ∷ b'R' ∷ b'1' ∷ []

-- `std::memcmp(...) == 0` of vectors of one length
unfoldable pub same_bytes : List ℕ → List ℕ → Bool
same_bytes [] [] = true
same_bytes [] (c ∷ cs) = false
same_bytes (b ∷ bs) [] = false
same_bytes (b ∷ bs) (c ∷ cs) = b == c && same_bytes bs cs

unfoldable pub magic_is : List ℕ → List ℕ → Bool
unfolding same_bytes
magic_is bs magic = leb 8 (length bs) && same_bytes (take 8 bs) magic

unfoldable pub all_zero : List ℕ → Bool
all_zero [] = true
all_zero (b ∷ bs) = b == 0 && all_zero bs

-- The checks that all structures with a magic share. A size is a `uint32_t`, so `crc_offset + 4` does
-- not wrap at the offsets that the decoders pass.
unfoldable pub common_check : List ℕ → List ℕ → ℕ → ℕ → Result (Unit {0})
common_check bs magic expected_size crc_offset = do
  reject_if (ltb (length bs) expected_size) ErrorCode.corrupt
  reject_if (not (magic_is bs magic)) ErrorCode.corrupt
  reject_if (not (get16 bs 8 == format_major)) ErrorCode.unsupported
  reject_if (ltb format_minor (get16 bs 10)) ErrorCode.unsupported
  let encoded_size = get32 bs 12
  reject_if (not (encoded_size == expected_size) || ltb (length bs) encoded_size) ErrorCode.corrupt
  reject_if (ltb encoded_size (crc_offset + 4)) ErrorCode.internal_error
  reject_if
      (not (crc32c_with_zeroed_field (take encoded_size bs) crc_offset == get32 bs crc_offset))
      ErrorCode.corrupt

unfoldable pub finish_crc : List ℕ → ℕ → List ℕ
unfolding put32
finish_crc bs offset = let zeroed = put32 bs offset 0 in put32 zeroed offset (crc32c zeroed)

-- `static_cast<std::uint64_t>` sums do not wrap here, since the overflow is tested first; `none` is
-- the overflow flag.
unfoldable pub align_up : ℕ → ℕ → ℕ × Bool
align_up value quantum =
    if quantum == 0
    then (0, true)
    else let remainder = value % quantum in
      if remainder == 0
      then (value, false)
      else let add = quantum - remainder in
        if ltb ((2 ^ 64 - 1) - add) value then (0, true) else (value + add, false)

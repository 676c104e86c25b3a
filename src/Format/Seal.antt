-- ===== src/Format/Seal.antt =====
-- `finish_crc` and `common_check`.
use tfdb.Prelude.{ℕ, ◌+◌, ◌≤◌, List, take, length, ◌≡◌, refl, ap, sym, ◌∙◌, true, arith}
use tfdb.Bytes.{put32, get16, get32, le_bytes}
use tfdb.Bytes.Store.{store-store, length-store, get32-put32, take-all}
use tfdb.Crc.{crc32c, crc32c_with_zeroed_field}
use tfdb.Crc.Laws.{crc32c_with_zeroed_field-store}
use tfdb.Crc.Range.{crc32c-lt}
use tfdb.Status.{returns}
use tfdb.Format.{finish_crc, common_check, magic_is, format_major, format_minor}

pub length-put32 : (buf : List ℕ) (offset value : ℕ) → length (put32 buf offset value) ≡ length buf
unfolding put32
length-put32 buf offset value = length-store buf offset _

pub length-finish_crc : (buf : List ℕ) (offset : ℕ) → length (finish_crc buf offset) ≡ length buf
unfolding finish_crc
length-finish_crc buf offset = length-put32 _ offset _ ∙ length-put32 buf offset 0

-- The checksum field holds the checksum of the bytes around it.
pub finish_crc-sealed :
    (buf : List ℕ) (offset size : ℕ)
    → length buf ≡ size
    → offset + 4 ≤ size
    → crc32c_with_zeroed_field (take size (finish_crc buf offset)) offset
      ≡ get32 (finish_crc buf offset) offset
unfolding finish_crc put32
finish_crc-sealed buf offset size sized fits =
    rw (take-all size (finish_crc buf offset) (length-finish_crc buf offset ∙ sized))
      (checksum ∙ sym (get32-put32 zeroed offset (crc32c zeroed) room (crc32c-lt zeroed)))
  where
    zeroed : List ℕ
    zeroed = put32 buf offset 0

    room : offset + 4 ≤ length zeroed
    room = omega (arith, length-put32 buf offset 0)

    checksum : crc32c_with_zeroed_field (finish_crc buf offset) offset ≡ crc32c zeroed
    checksum =
        crc32c_with_zeroed_field-store zeroed offset _ _ _ _ room
        ∙ ap crc32c (store-store buf offset (le_bytes 4 0) (le_bytes 4 0) refl)

-- A sealed structure with the right magic, version and size field passes the common checks.
pub common_check-sealed :
    (buf magic : List ℕ) (size offset : ℕ)
    → length buf ≡ size
    → offset + 4 ≤ size
    → magic_is (finish_crc buf offset) magic ≡ true
    → get16 (finish_crc buf offset) 8 ≡ format_major
    → get16 (finish_crc buf offset) 10 ≡ format_minor
    → get32 (finish_crc buf offset) 12 ≡ size
    → common_check (finish_crc buf offset) magic size offset ≡ returns tt
unfolding common_check
common_check-sealed buf magic size offset sized fits magical major minor sizes =
    rw (magical, major, minor, sizes)
      (ground (arith, length-finish_crc buf offset, finish_crc-sealed buf offset size sized fits))

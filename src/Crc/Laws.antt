-- ===== src/Crc/Laws.antt =====
-- `crc32c_update` along a list, and `crc32c_with_zeroed_field`.
use tfdb.Prelude.{ℕ, ◌+◌, ◌≤◌, List, [], ◌∷◌, ◌++◌, take, drop, length, ◌≡◌, refl}
use tfdb.Bytes.{store}
use tfdb.Bytes.Store.{drop-drop, store-split, take-store, drop-store}
use tfdb.Crc.{crc32c_step, crc32c_update, crc32c, crc32c_with_zeroed_field, crc32c_init}

-- A checksum can be taken piece by piece.
crc32c_update-append :
    (state : ℕ) (bs cs : List ℕ)
    → crc32c_update state (bs ++ cs) ≡ crc32c_update (crc32c_update state bs) cs
unfolding crc32c_update
crc32c_update-append state [] cs = refl
crc32c_update-append state (b ∷ bs) cs = crc32c_update-append (crc32c_step state b) bs cs

abbrev zeros : List ℕ
zeros = 0 ∷ 0 ∷ 0 ∷ 0 ∷ []

-- Whatever four bytes stand in the field, if the field lies in the buffer the result is the checksum
-- of the buffer with zeros stored there.
pub crc32c_with_zeroed_field-store :
    (buf : List ℕ) (offset : ℕ) (a b c d : ℕ)
    → offset + 4 ≤ length buf
    → crc32c_with_zeroed_field (store buf offset (a ∷ b ∷ c ∷ d ∷ [])) offset
      ≡ crc32c (store buf offset zeros)
unfolding crc32c_with_zeroed_field crc32c
crc32c_with_zeroed_field-store buf offset a b c d h =
    let field : List ℕ = a ∷ b ∷ c ∷ d ∷ [] in
    rw (
      take-store buf offset field,
      ← drop-drop offset 4 (store buf offset field),
      drop-store buf offset field,
      store-split buf offset zeros h,
      crc32c_update-append crc32c_init (take offset buf) (zeros ++ drop 4 (drop offset buf)),
      crc32c_update-append _ zeros (drop 4 (drop offset buf)),
    )

-- ===== src/RingStore/Opener/Survives.antt =====
-- The volume header that `open` reads when one of the two copies is lost.
use tfdb.Prelude.{
  ℕ, ◌≡◌, refl, ◌⊎◌, inl, inr, true, false, List, arith, ltb, ◌==◌, ℤ, pos_part, neg_part, ◌+◌,
  same_time,
}
use tfdb.Status.{ErrorCode, Result, returns, fails}
use tfdb.Format.{volume_header_encoded_size, volume_header_copy_size}
use tfdb.Format.Volume.{VolumeHeader, encode_volume_header, decode_volume_header}
use tfdb.RingStore.State.{Device}
use tfdb.RingStore.Geometry.{validate_volume_geometry}
use tfdb.Format.Volume.RoundTrip.{IsEncodable}
use tfdb.RingStore.Reader.Reads.{◌>>=◌, ◌>>◌, give, lift, after_read}
use tfdb.RingStore.Opener.Admits.{geometry-decodes}
use tfdb.RingStore.Opener.Headers.{
  same_volume_header, choose_header, decoded_copy, choose_copy, attempt, backend_size, read_volume,
}

self : (n : ℕ) → (n == n) ≡ true
self n = ground arith

same_self : (t : ℤ) → same_time t t ≡ true
same_self t =
    let e : ltb (pos_part t + neg_part t) (pos_part t + neg_part t) ≡ false = ground arith in
    rw e refl

same_header : (h : VolumeHeader) → same_volume_header h h ≡ true
same_header h =
    rw
      (
        self h.volume_id_high,
        self h.volume_id_low,
        self h.volume_size,
        self h.partition_size,
        self h.partition_count,
        self h.index_region_size,
        self h.max_block_payload,
        self h.persistence_quantum,
      )
      (same_self h.created_time_ns)

-- A copy that could not be read, or does not decode.
abbrev pub IsLost : Result (List ℕ) → Type 0
IsLost r = (c : ErrorCode) × (decoded_copy r ≡ fails c)

abbrev pub IsCopy : VolumeHeader → Result (List ℕ) → Type 0
IsCopy h r = r ≡ returns (encode_volume_header h)

-- One copy is there, and the other is the same or lost.
abbrev pub IsKept : VolumeHeader → Result (List ℕ) → Result (List ℕ) → Type 0
IsKept h first second =
    (IsCopy h first × (IsCopy h second ⊎ IsLost second)) ⊎ (IsLost first × IsCopy h second)

choose_header-lost_second :
    (h : VolumeHeader) (second : Result VolumeHeader) (c : ErrorCode)
    → (second ≡ fails c)
    → choose_header (returns h) second ≡ returns h
unfolding choose_header
choose_header-lost_second h second c e = rw e refl

choose_copy-IsKept :
    (h : VolumeHeader) (first second : Result (List ℕ))
    → (decode_volume_header (encode_volume_header h) ≡ returns h)
    → IsKept h first second
    → choose_copy first second ≡ returns h
unfolding choose_copy choose_header
choose_copy-IsKept h first second back (inl (e, inl e')) =
    let t = same_header h in rw (e, e', back, t) refl
choose_copy-IsKept h first (returns bs) back (inl (e, inr (c, lost))) = rw (e, back, lost) refl
choose_copy-IsKept h first (fails code) back (inl (e, inr (c, lost))) = rw (e, back) refl
choose_copy-IsKept h (returns bs) second back (inr ((c, lost), e)) = rw (e, back, lost) refl
choose_copy-IsKept h (fails code) second back (inr ((c, lost), e)) = rw (e, back) refl

module _ {S : Type 0} (dev : Device S) where
  -- `open` reads the header of a volume, whose fields fit their widths and whose geometry it accepts,
  -- from two copies of which one may be lost: it could not be read, or what was read does not decode.
  pub read_volume-survives :
      (h : VolumeHeader) (first second : Result (List ℕ)) (s s1 s2 : S)
      → IsEncodable h
      → (validate_volume_geometry h (dev.size s2) ≡ returns tt)
      → (dev.read 0 volume_header_encoded_size s ≡ (first, s1))
      → (dev.read volume_header_copy_size volume_header_encoded_size s1 ≡ (second, s2))
      → IsKept h first second
      → read_volume dev s ≡ (returns h, s2)
  unfolding read_volume ◌>>=◌ ◌>>◌ give lift attempt backend_size after_read
  read_volume-survives h first second s s1 s2 fits fine e1 e2 kept =
      let back = geometry-decodes h (dev.size s2) fits fine in
      let chosen = choose_copy-IsKept h first second back kept in rw (e1, e2, chosen, fine) refl

-- ===== src/RingStore/Opener/Admits.antt =====
-- The geometry that `open` accepts is one that the header's decoder accepts.
use tfdb.Prelude.{ℕ, ◌≡◌, refl, ◌∙◌, Bool, true, false, ◌&&◌, arith, ltb, ◌==◌, neither, positive}
use tfdb.Status.{ErrorCode, Result, returns, reject_if, ◌>>◌}
use tfdb.Format.Volume.{VolumeHeader, encode_volume_header, decode_volume_header}
use tfdb.Format.Volume.RoundTrip.{IsEncodable, decode_volume_header-encode}
use tfdb.RingStore.Geometry.{is_power_of_two, bad_sizes, validate_volume_geometry}

-- A test that a step passed.
passed :
    (t : Bool) (c : ErrorCode) (rest : Result (Unit {0}))
    → (reject_if t c >> rest ≡ returns tt)
    → (t ≡ false) × (rest ≡ returns tt)
passed true c rest h = absurd cc
passed false c rest h = (refl, h)

geometry_sizes :
    (h : VolumeHeader) (size : ℕ)
    → (validate_volume_geometry h size ≡ returns tt)
    → bad_sizes h size ≡ false
unfolding validate_volume_geometry
geometry_sizes h size e =
    let (id, rest) = passed (h.volume_id_high == 0 && h.volume_id_low == 0) ErrorCode.corrupt _ e in
    (passed (bad_sizes h size) ErrorCode.corrupt _ rest).0

not_zero : (q : ℕ) → (is_power_of_two q ≡ true) → (q == 0) ≡ false
unfolding is_power_of_two
not_zero q h = ground arith

pub geometry-decodes :
    (h : VolumeHeader) (size : ℕ)
    → IsEncodable h
    → (validate_volume_geometry h size ≡ returns tt)
    → decode_volume_header (encode_volume_header h) ≡ returns h
geometry-decodes h size fits e =
    let h0 = geometry_sizes h size e in
    let h1 = (neither h0).0 in
    let h2 = (neither h1).0 in
    let h3 = (neither h2).0 in
    let h4 = (neither h3).0 in
    let (h5, index) = neither h4 in
    let (h6, room) = neither h5 in
    let payload : (h.max_block_payload == 0) ≡ false = room in
    let (h7, quantum) = neither h6 in
    let (h8, power) = neither h7 in
    let (h9, sized) = neither h8 in
    let partition : (h.partition_size == 0) ≡ false = sized in
    let (h10, few) = neither h9 in
    let count : ltb h.partition_count 2 ≡ false = few in
    let q = not_zero h.persistence_quantum (positive power) in
    decode_volume_header-encode h fits ∙ rw (count, partition, payload, q) refl

-- ===== src/RecordProfile/RoundTrip.antt =====
-- `FramedRecordV1::encode` followed by `decode_block`.
use tfdb.Prelude.{
  ℕ, zero, suc, ◌≤◌, ◌≡◌, refl, Bool, not, List, [], ◌∷◌, ◌++◌, arith, ltb, if◌then◌else◌, length,
  drop, map,
}
use tfdb.Status.{ErrorCode, Status, ok, error, returns}
use tfdb.Bytes.{bytes, get32}
use tfdb.RecordProfile.Frame.{
  RecordView, header_size, encode, bad_frame, bad_crc, record_view, decode_loop, decode_block,
}
use tfdb.RecordProfile.Fields.{
  FramedRecord, Fits, frame_of, view_of, frame, frame_lem, frame_dropped, frame_size_read,
  length-data, view_read, frame_length_lem, sizes_fit, long_enough, crc_fits,
}

abbrev pub AllFit : List FramedRecord → Type 0
AllFit [] = Unit {0}
AllFit (r ∷ rs) = Fits r × AllFit rs

-- The frames side by side, as the store's builder puts them.
abbrev pub frames : List FramedRecord → List ℕ
frames [] = []
frames (r ∷ rs) = frame_of r ++ frames rs

module _ {V : Type 0} (visitor : RecordView → V → Bool × V) where
  -- The visitor along the views of a list, until it answers no.
  unfoldable pub visit_all : List RecordView → V → Status × V
  visit_all [] w = (ok, w)
  visit_all (v ∷ vs) w =
      let (keep, w') = visitor v w in
      let rest = visit_all vs w' in if not keep then (ok, w') else rest

  abbrev round : ℕ → List ℕ → V → Status × V
  round rounds data_ w =
      let (keep, w') = visitor (record_view data_) w in
      let rest = decode_loop visitor rounds (drop (get32 data_ 0) data_) w' in
      if ltb (length data_) header_size
      then (error ErrorCode.corrupt, w)
      else if bad_frame data_
      then (error ErrorCode.corrupt, w)
      else if bad_crc data_
      then (error ErrorCode.corrupt, w)
      else if not keep
      then (ok, w')
      else rest

  round_lem :
      (rounds : ℕ) (data_ : List ℕ) (w : V)
      → 1 ≤ length data_
      → decode_loop visitor (suc rounds) data_ w ≡ round rounds data_ w
  unfolding decode_loop
  round_lem rounds [] w h = absurd (omega arith)
  round_lem rounds (b ∷ bs) w h = refl

  frame_visited :
      (r : FramedRecord) (rest : List ℕ) (rounds : ℕ) (w : V)
      → Fits r
      → decode_loop visitor (suc rounds) (frame_of r ++ rest) w ≡ (
          if not (visitor (view_of r) w).0
          then (ok, (visitor (view_of r) w).1)
          else decode_loop visitor rounds rest (visitor (view_of r) w).1)
  frame_visited r rest rounds w fits =
      let one =
        round_lem rounds (frame r fits rest ++ rest) w
          (omega (arith, length-data r fits rest, frame_length_lem r fits rest)) in
      let step =
        rw
          (
            view_read r fits rest,
            long_enough r fits rest,
            sizes_fit r fits rest,
            crc_fits r fits rest,
            frame_size_read r fits rest,
            frame_dropped r fits rest,
          )
          at one in
      rw (← frame_lem r fits rest) at step

  length-frames : (rs : List FramedRecord) → AllFit rs → length rs ≤ length (frames rs)
  length-frames [] fits = omega arith
  length-frames (r ∷ rs) fits =
      let here = rw (← frame_lem r fits.0 (frames rs)) at (length-data r fits.0 (frames rs)) in
      omega (arith, length-frames rs fits.1, here, frame_length_lem r fits.0 (frames rs))

  decode_loop-frames :
      (rs : List FramedRecord) (rounds : ℕ) (w : V)
      → AllFit rs
      → length rs ≤ rounds
      → decode_loop visitor rounds (frames rs) w ≡ visit_all (map view_of rs) w
  unfolding visit_all
  decode_loop-frames [] rounds w fits h = unfold decode_loop in refl
  decode_loop-frames (r ∷ rs) zero w fits h = absurd (omega arith)
  decode_loop-frames (r ∷ rs) (suc rounds) w fits h = rw (
    frame_visited r (frames rs) rounds w fits.0,
    decode_loop-frames rs rounds (visitor (view_of r) w).1 fits.1 (omega (arith, h)),
  )

  -- A block that is made of the frames of records, each within the widths of its types, is decoded to
  -- those records in their order: the visitor sees exactly their views, until it answers no.
  pub decode_block-frames :
      (rs : List FramedRecord) (w : V)
      → AllFit rs
      → decode_block visitor (bytes (frames rs)) w ≡ visit_all (map view_of rs) w
  unfolding decode_block
  decode_block-frames rs w fits =
      decode_loop-frames rs (length (frames rs)) w fits (length-frames rs fits)

-- `encode` of a record within the widths of its types returns its frame.
pub encode-frame :
    (r : FramedRecord)
    → Fits r
    → encode r.time r.selector r.flags (bytes r.payload) ≡ returns (frame_of r)
unfolding encode
encode-frame r fits = ground (arith, fits.3)

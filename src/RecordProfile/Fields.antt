-- ===== src/RecordProfile/Fields.antt =====
-- The fields of a frame that `FramedRecordV1::encode` makes, as `decode_block` reads them.
use tfdb.Prelude.{
  ℕ, zero, suc, ◌+◌, ◌^◌, ◌<◌, ◌≡◌, refl, ap, false, List, [], ◌∷◌, ◌++◌, arith, ltb, length, take,
  drop, replicate, length-append, ℤ, pos, negsuc,
}
use tfdb.Bytes.{store, overlay, le_bytes, gather, get16, get32, get64, to_u64}
use tfdb.Bytes.Endian.{gather-le_bytes, to_u64-lt, IsI64}
use tfdb.Bytes.Store.{take-exact, drop-exact}
use tfdb.Crc.{crc32c, crc32c_with_zeroed_field}
use tfdb.Crc.Laws.{crc32c_with_zeroed_field-store}
use tfdb.Crc.Range.{crc32c-lt}
use tfdb.RecordProfile.Frame.{
  RecordView, header_size, unsealed_frame, seal_frame, decoded_time, bad_frame, bad_crc,
  record_view,
}

replicate-append : (m n a : ℕ) → replicate (m + n) a ≡ replicate m a ++ replicate n a
replicate-append zero n a = let e : 0 + n ≡ n = omega arith in rw e
replicate-append (suc m) n a =
    let e : suc m + n ≡ suc (m + n) = omega arith in rw e (ap (λ t. a ∷ t) (replicate-append m n a))

overlay-replicate : (bs : List ℕ) → overlay bs (replicate (length bs) 0) ≡ bs
unfolding overlay
overlay-replicate [] = refl
overlay-replicate (b ∷ bs) = ap (λ t. b ∷ t) (overlay-replicate bs)

-- The 32 bytes before the payload.
front : ℕ → ℕ → ℕ → ℕ → ℕ → ℕ → List ℕ
unfolding le_bytes
front frame_size time selector flags payload_size crc =
    le_bytes 4 frame_size
    ++ (le_bytes 2 32
        ++ (le_bytes 2 flags
            ++ (le_bytes 8 time
                ++ (le_bytes 8 selector ++ (le_bytes 4 payload_size ++ le_bytes 4 crc)))))

unsealed_frame-split :
    (time : ℤ) (selector flags : ℕ) (payload : List ℕ)
    → unsealed_frame time selector flags payload
      ≡ front (32 + length payload) (to_u64 time) selector flags (length payload) 0 ++ payload
unfolding unsealed_frame front le_bytes
unsealed_frame-split time selector flags payload = rw (replicate-append 32 (length payload) 0) (
    ap (λ t. front (32 + length payload) (to_u64 time) selector flags (length payload) 0 ++ t)
      (overlay-replicate payload))

seal_frame-front :
    (a t s f p : ℕ) (payload : List ℕ)
    → seal_frame (front a t s f p 0 ++ payload)
      ≡ front a t s f p (crc32c (front a t s f p 0 ++ payload)) ++ payload
unfolding seal_frame front le_bytes store overlay
seal_frame-front a t s f p payload = refl

decoded_time-to_u64 : (t : ℤ) → IsI64 t → decoded_time (to_u64 t) ≡ t
unfolding decoded_time to_u64
decoded_time-to_u64 (pos n) h = ground arith
decoded_time-to_u64 (negsuc n) h = ground arith

-- What a caller gives to `encode`, within the widths of its types.
pub record FramedRecord : Type 0 where
  pub time : ℤ
  pub selector : ℕ
  pub flags : ℕ
  pub payload : List ℕ

abbrev pub Fits : FramedRecord → Type 0
Fits r =
    IsI64 r.time
    × (r.selector < 2 ^ 64)
    × (r.flags < 2 ^ 16)
    × (header_size + length r.payload < 2 ^ 32)

abbrev pub frame_of : FramedRecord → List ℕ
frame_of r = seal_frame (unsealed_frame r.time r.selector r.flags r.payload)

abbrev pub view_of : FramedRecord → RecordView
view_of r = record {
  encoded = frame_of r;
  payload = r.payload;
  index_time_ns = r.time;
  selector = r.selector;
  flags = r.flags;
}

module _ (r : FramedRecord) (fits : Fits r) (rest : List ℕ) where
  pub frame_length : ℕ
  frame_length = header_size + length r.payload

  sum : ℕ
  sum =
      crc32c
        (front frame_length (to_u64 r.time) r.selector r.flags (length r.payload) 0 ++ r.payload)

  pub frame : List ℕ
  frame = front frame_length (to_u64 r.time) r.selector r.flags (length r.payload) sum ++ r.payload

  pub frame_lem : frame_of r ≡ frame
  unfolding frame frame_length sum
  frame_lem = rw (unsealed_frame-split r.time r.selector r.flags r.payload) (
      seal_frame-front frame_length (to_u64 r.time) r.selector r.flags (length r.payload) r.payload)

  length-frame : length frame ≡ frame_length
  unfolding frame frame_length front le_bytes
  length-frame = omega arith

  pub frame_size_read : get32 (frame ++ rest) 0 ≡ frame_length
  unfolding get32 frame front
  frame_size_read = gather-le_bytes 4 frame_length (unfold frame_length in omega (arith, fits.3))

  header_size_read : get16 (frame ++ rest) 4 ≡ 32
  unfolding get16 frame front le_bytes gather
  header_size_read = refl

  flags_read : get16 (frame ++ rest) 6 ≡ r.flags
  unfolding get16 frame front
  flags_read = gather-le_bytes 2 r.flags fits.2

  time_read : get64 (frame ++ rest) 8 ≡ to_u64 r.time
  unfolding get64 frame front
  time_read = gather-le_bytes 8 (to_u64 r.time) (to_u64-lt r.time)

  selector_read : get64 (frame ++ rest) 16 ≡ r.selector
  unfolding get64 frame front
  selector_read = gather-le_bytes 8 r.selector fits.1

  payload_size_read : get32 (frame ++ rest) 24 ≡ length r.payload
  unfolding get32 frame front
  payload_size_read = gather-le_bytes 4 (length r.payload) (omega (arith, fits.3))

  crc_read : get32 (frame ++ rest) 28 ≡ sum
  unfolding get32 frame front
  crc_read = gather-le_bytes 4 sum (unfold sum in crc32c-lt _)

  frame_taken : take frame_length (frame ++ rest) ≡ frame
  frame_taken = take-exact frame_length frame rest length-frame

  pub frame_dropped : drop frame_length (frame ++ rest) ≡ rest
  frame_dropped = drop-exact frame_length frame rest length-frame

  payload_taken : take (length r.payload) (drop 32 (frame ++ rest)) ≡ r.payload
  unfolding frame front le_bytes
  payload_taken = take-exact (length r.payload) r.payload rest refl

  checksum : crc32c_with_zeroed_field frame 28 ≡ sum
  unfolding frame sum front le_bytes store overlay
  checksum =
      crc32c_with_zeroed_field-store
        (front frame_length (to_u64 r.time) r.selector r.flags (length r.payload) 0 ++ r.payload) 28
        _ _ _ _ (omega arith)

  pub length-data : length (frame ++ rest) ≡ frame_length + length rest
  length-data = omega (arith, length-append frame rest, length-frame)

  pub view_read : record_view (frame ++ rest) ≡ view_of r
  unfolding record_view
  view_read = rw (
    frame_size_read,
    header_size_read,
    flags_read,
    time_read,
    selector_read,
    payload_size_read,
    frame_taken,
    payload_taken,
    decoded_time-to_u64 r.time fits.0,
    frame_lem,
  )

  pub frame_length_lem : frame_length ≡ 32 + length r.payload
  unfolding frame_length
  frame_length_lem = refl

  pub sizes_fit : bad_frame (frame ++ rest) ≡ false
  sizes_fit =
      rw (frame_size_read, header_size_read, payload_size_read, length-data, frame_length_lem)
        (ground (arith, fits.3))

  pub long_enough : ltb (length (frame ++ rest)) header_size ≡ false
  long_enough = rw (length-data, frame_length_lem) (ground arith)

  pub crc_fits : bad_crc (frame ++ rest) ≡ false
  crc_fits = rw (frame_size_read, frame_taken, crc_read, checksum) (ground arith)

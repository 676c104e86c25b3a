-- ===== src/RecordProfile/Frame.antt =====
-- `FramedRecordV1::encode` and `FramedRecordV1::decode_block`. The accessors of the source are those of
-- `Bytes`, under the same names.
use tfdb.Prelude.{
  ℕ, zero, suc, ◌+◌, ◌-◌, ◌/◌, ◌%◌, ◌^◌, Bool, not, ◌||◌, List, [], ◌∷◌, ltb, ◌==◌, if◌then◌else◌,
  length, take, drop, replicate, ℤ, pos, negsuc,
}
use tfdb.Status.{ErrorCode, Status, ok, error, Result, returns, ◌>>◌, reject_if}
use tfdb.Bytes.{
  ByteView, valid, contents, size, store, put16, put32, put64, get16, get32, get64, to_u64,
}
use tfdb.Crc.{crc32c, crc32c_with_zeroed_field}

abbrev pub framed_record_v1_profile_id : ℕ
framed_record_v1_profile_id = 0x5446_4442_5246_5631

abbrev pub framed_record_v1_version : ℕ
framed_record_v1_version = 1

-- The two views are the bytes that they show.
pub record RecordView : Type 0 where
  pub encoded : List ℕ
  pub payload : List ℕ
  pub index_time_ns : ℤ
  pub selector : ℕ
  pub flags : ℕ

abbrev pub header_size : ℕ
header_size = 32

-- The frame with zeros for its checksum.
unfoldable pub unsealed_frame : ℤ → ℕ → ℕ → List ℕ → List ℕ
unfolding store put16 put32 put64 to_u64
unsealed_frame time selector flags payload =
    let encoded = replicate (header_size + length payload) 0 in
    let encoded = put32 encoded 0 (header_size + length payload) in
    let encoded = put16 encoded 4 header_size in
    let encoded = put16 encoded 6 flags in
    let encoded = put64 encoded 8 (to_u64 time) in
    let encoded = put64 encoded 16 selector in
    let encoded = put32 encoded 24 (length payload) in store encoded header_size payload

unfoldable pub seal_frame : List ℕ → List ℕ
unfolding put32
seal_frame encoded = put32 encoded 28 (crc32c encoded)

unfoldable pub encode : ℤ → ℕ → ℕ → ByteView → Result (List ℕ)
unfolding unsealed_frame seal_frame
encode time selector flags payload = do
  reject_if (not (valid payload)) ErrorCode.invalid_argument
  reject_if (ltb ((2 ^ 32 - 1) - header_size) (size payload)) ErrorCode.out_of_range
  returns (seal_frame (unsealed_frame time selector flags (contents payload)))

abbrev negated : ℕ → ℤ
negated zero = pos 0
negated (suc n) = negsuc n

-- The sign bit is tested, and a negative time is the negation of its magnitude, which is 2 ^ 63 at most.
unfoldable pub decoded_time : ℕ → ℤ
decoded_time encoded_time =
    if encoded_time / 2 ^ 63 % 2 == 0
    then pos encoded_time
    else let magnitude = ((2 ^ 64 - 1 - encoded_time) + 1) % 2 ^ 64 in
      if magnitude == 2 ^ 63 then negsuc (2 ^ 63 - 1) else negated magnitude

-- The test of a frame's sizes. `header_size + payload_size` is a sum of 32 bits.
abbrev pub bad_frame : List ℕ → Bool
bad_frame data_ =
    not (get16 data_ 4 == header_size)
    || ltb (get32 data_ 0) (get16 data_ 4)
    || not (get32 data_ 0 == (get16 data_ 4 + get32 data_ 24) % 2 ^ 32)
    || ltb (length data_) (get32 data_ 0)

abbrev pub bad_crc : List ℕ → Bool
bad_crc data_ = not (crc32c_with_zeroed_field (take (get32 data_ 0) data_) 28 == get32 data_ 28)

-- The assignments to `record`.
unfoldable pub record_view : List ℕ → RecordView
unfolding get16 get32 get64 decoded_time
record_view data_ = record {
  encoded = take (get32 data_ 0) data_;
  payload = take (get32 data_ 24) (drop (get16 data_ 4) data_);
  index_time_ns = decoded_time (get64 data_ 8);
  selector = get64 data_ 16;
  flags = get16 data_ 6;
}

module _ {V : Type 0} (visitor : RecordView → V → Bool × V) where
  -- The loop over the bytes that are left, with the rounds left. A round takes 32 bytes at least, so
  -- rounds for all bytes are enough.
  unfoldable pub decode_loop : ℕ → List ℕ → V → Status × V
  unfolding record_view
  decode_loop rounds [] w = (ok, w)
  decode_loop zero (b ∷ bs) w = (ok, w)
  decode_loop (suc rounds) (b ∷ bs) w =
      let data_ = b ∷ bs in
      let (keep, w') = visitor (record_view data_) w in
      let rest = decode_loop rounds (drop (get32 data_ 0) data_) w' in
      if ltb (length data_) header_size
      then (error ErrorCode.corrupt, w)
      else if bad_frame data_
      then (error ErrorCode.corrupt, w)
      else if bad_crc data_
      then (error ErrorCode.corrupt, w)
      else if not keep
      then (ok, w')
      else rest

  unfoldable pub decode_block : ByteView → V → Status × V
  unfolding decode_loop
  decode_block block w =
      if not (valid block)
      then (error ErrorCode.invalid_argument, w)
      else decode_loop (length (contents block)) (contents block) w

-- ===== src/Codec/Lz4/Decode.antt =====
-- The decoder of `Lz4BlockCodec`. A position in the stored bytes is the list of the bytes from there on.
use tfdb.Prelude.{
  ℕ, zero, suc, ◌+◌, ◌-◌, ◌*◌, ◌/◌, ◌^◌, bit_and, bit_or, Bool, true, false, not, ◌&&◌, ◌||◌,
  Option, none, some, List, [], ◌∷◌, ◌++◌, ltb, ◌==◌, if◌then◌else◌, length, get_or, take, drop,
}
use tfdb.Status.{ErrorCode, Result, returns, fails, ◌>>=◌, ◌>>◌, reject_if}
use tfdb.Codec.Lz4.{last_literals, match_find_limit, min_match}
use tfdb.Codec.PackBits.{size_max}
use tfdb.Bytes.{ByteView, valid, contents, size}

-- `lz4_read_length`: the bytes after it and the length, or nothing.
unfoldable pub read_length : List ℕ → ℕ → ℕ → Option (List ℕ × ℕ)
read_length [] limit length = none
read_length (extra ∷ rest) limit length =
    let more = read_length rest limit (length + extra) in
    if ltb limit length || ltb (limit - length) extra
    then none
    else if extra == 255
    then more
    else some (rest, length + extra)

-- A saturated nibble is continued.
abbrev pub nibble_length : ℕ → List ℕ → ℕ → Option (List ℕ × ℕ)
nibble_length nibble rest limit =
    if nibble == 15 then read_length rest limit nibble else some (rest, nibble)

abbrev pub or_corrupt : Option (List ℕ × ℕ) → Result (List ℕ × ℕ)
or_corrupt none = fails ErrorCode.corrupt
or_corrupt (some r) = returns r

-- `decoded[begin + i] = decoded[begin - distance + i]`, a byte at a time.
unfoldable pub copy_match : ℕ → ℕ → List ℕ → List ℕ
copy_match zero distance decoded = decoded
copy_match (suc n) distance decoded =
    copy_match n distance (decoded ++ get_or decoded (length decoded - distance) 0 ∷ [])

-- The locals of `decompress` across its rounds.
pub record Progress : Type 0 where
  pub decoded : List ℕ
  pub matched : Bool
  pub last_match_begin : ℕ
  pub last_match_end : ℕ

-- The checks after the loop.
unfoldable pub finish : ℕ → Progress → Result (List ℕ)
finish expected_size p = do
  reject_if (not (length p.decoded == expected_size)) ErrorCode.corrupt
  reject_if
      (p.matched
        && (ltb (expected_size - p.last_match_end) last_literals
            || ltb (expected_size - p.last_match_begin) match_find_limit))
      ErrorCode.corrupt
  returns p.decoded

-- The second half of a round: the match of `match_nibble` at the offset that `rest` begins with.
-- The result is the bytes left and the new locals.
unfoldable pub take_match : ℕ → List ℕ → ℕ → Progress → Result (List ℕ × Progress)
unfolding read_length copy_match
take_match match_nibble [] expected_size p = fails ErrorCode.corrupt
take_match match_nibble (low ∷ []) expected_size p = fails ErrorCode.corrupt
take_match match_nibble (low ∷ high ∷ rest) expected_size p = do
  let distance = bit_or low (high * 2 ^ 8)
  reject_if (distance == 0 || ltb (length p.decoded) distance) ErrorCode.corrupt
  (rest', long) ← or_corrupt (nibble_length match_nibble rest expected_size)
  reject_if (ltb (size_max - min_match) long) ErrorCode.corrupt
  let match = long + min_match
  reject_if (ltb (expected_size - length p.decoded) match) ErrorCode.corrupt
  let begin = length p.decoded
  returns (
    rest',
    record {
      decoded = copy_match match distance p.decoded;
      matched = true;
      last_match_begin = begin;
      last_match_end = begin + match;
    },
  )

-- The first half of a round: the literals of `literal_nibble`.
unfoldable pub take_literals : ℕ → List ℕ → ℕ → Progress → Result (List ℕ × Progress)
unfolding read_length
take_literals literal_nibble rest expected_size p = do
  (rest', literals) ← or_corrupt (nibble_length literal_nibble rest expected_size)
  reject_if (ltb (length rest') literals || ltb (expected_size - length p.decoded) literals)
      ErrorCode.corrupt
  returns (drop literals rest', record p { decoded = p.decoded ++ take literals rest' })

-- The loop. A round takes a byte at least, so the rounds do not run out; if they did, the result would
-- be `internal_error`, which the source never returns here.
unfoldable pub decompress_loop : ℕ → List ℕ → ℕ → Progress → Result (List ℕ)
unfolding finish
decompress_loop rounds [] expected_size p = finish expected_size p
decompress_loop zero (token ∷ rest) expected_size p = fails ErrorCode.internal_error
decompress_loop (suc rounds) (token ∷ rest) expected_size p = do
  (after_literals, p') ← take_literals (token / 2 ^ 4) rest expected_size p
  if length after_literals == 0
      then (do reject_if (not (bit_and token 0x0f == 0)) ErrorCode.corrupt; finish expected_size p')
      else do
        (after_match, p'') ← take_match (bit_and token 0x0f) after_literals expected_size p'
        decompress_loop rounds after_match expected_size p''

abbrev pub nothing_yet : Progress
nothing_yet = record { decoded = []; matched = false; last_match_begin = 0; last_match_end = 0 }

unfoldable pub decompress : ByteView → ℕ → Result (List ℕ)
unfolding decompress_loop
decompress input expected_size = do
  reject_if (not (valid input)) ErrorCode.invalid_argument
  decompress_loop (size input) (contents input) expected_size nothing_yet

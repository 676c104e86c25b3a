-- ===== src/Codec/PackBits.antt =====
-- `PackBitsCodec`. A position in the input is the list of the bytes from there on; what is appended
-- to the output stands in front of what the later rounds append.
pub mod Runs
pub mod RoundTrip
pub mod Size
pub mod Unpacked
use tfdb.Prelude.{
  get_or, ℕ, zero, suc, ◌+◌, ◌-◌, ◌*◌, ◌/◌, ◌%◌, ◌^◌, Bool, true, false, not, ◌&&◌, ◌||◌, ◌==◌, ltb,
  leb, min, bit_and, bit_or, if◌then◌else◌, List, [], ◌∷◌, ◌++◌, take, drop, length, replicate,
}
use tfdb.Status.{ErrorCode, Result, returns, fails, ◌>>=◌, ◌>>◌, reject_if}
use tfdb.Bytes.{ByteView, valid, contents, size}

abbrev pub size_max : ℕ
size_max = 2 ^ 64 - 1

unfoldable pub max_compressed_size : ℕ → ℕ
max_compressed_size input_size =
    let overhead = input_size / 128 + (if input_size % 128 == 0 then 0 else 1) in
    if ltb (size_max - overhead) input_size then size_max else input_size + overhead

-- The loop of `repeated`: bytes equal to the first one, `count` of which are behind.
unfoldable pub run_loop : ℕ → List ℕ → ℕ → ℕ
run_loop first [] count = count
run_loop first (b ∷ bs) count =
    let more = run_loop first bs (count + 1) in if ltb count 130 && b == first then more else count

unfoldable pub repeated : List ℕ → ℕ
unfolding run_loop
repeated [] = 1
repeated (b ∷ bs) = run_loop b bs 1

-- The inner loop: the literals from `literal_begin` on, `count` of which are behind. A round takes a
-- byte at least, so `rounds` is at most the number of bytes left.
unfoldable pub literal_loop : ℕ → List ℕ → ℕ → ℕ
literal_loop zero rest count = count
literal_loop (suc rounds) [] count = count
literal_loop (suc rounds) (b ∷ bs) count =
    let run = repeated (b ∷ bs) in
    let step = min run (128 - count) in
    let more = literal_loop rounds (drop step (b ∷ bs)) (count + step) in
    if ltb count 128 then (if leb 3 run then count else more) else count

-- The outer loop. A round takes a byte at least.
unfoldable pub compress_loop : ℕ → List ℕ → List ℕ
compress_loop zero rest = []
compress_loop (suc rounds) [] = []
compress_loop (suc rounds) (b ∷ bs) =
    let found = repeated (b ∷ bs) in
    let run = min found 130 in
    let after_run = compress_loop rounds (drop run (b ∷ bs)) in
    let count = literal_loop (length (b ∷ bs)) (drop found (b ∷ bs)) found in
    let after_literals = compress_loop rounds (drop count (b ∷ bs)) in
    if leb 3 found
    then bit_or 0x80 (run - 3) % 256 ∷ b ∷ after_run
    else (count - 1) % 256 ∷ (take count (b ∷ bs) ++ after_literals)

unfoldable pub compress : ByteView → Result (List ℕ)
unfolding compress_loop literal_loop repeated
compress input = do
  reject_if (not (valid input)) ErrorCode.invalid_argument
  returns (compress_loop (size input) (contents input))

-- The loop of `decompress`. A round takes a byte at least, so the rounds do not run out; if they did,
-- the result would be `internal_error`, which the source never returns here. `decoded.size()` never
-- passes `expected_size`, so the difference does not wrap.
unfoldable pub decompress_loop : ℕ → List ℕ → ℕ → List ℕ → Result (List ℕ)
decompress_loop rounds [] expected_size decoded = do
  reject_if (not (length decoded == expected_size)) ErrorCode.corrupt
  returns decoded
decompress_loop zero (token ∷ rest) expected_size decoded = fails ErrorCode.internal_error
decompress_loop (suc rounds) (token ∷ rest) expected_size decoded =
    if bit_and token 0x80 == 0
    then (do
      let count = token + 1
      reject_if (ltb (length rest) count || ltb (expected_size - length decoded) count)
          ErrorCode.corrupt
      decompress_loop rounds (drop count rest) expected_size (decoded ++ take count rest))
    else do
      let count = bit_and token 0x7f + 3
      reject_if (length rest == 0 || ltb (expected_size - length decoded) count) ErrorCode.corrupt
      decompress_loop rounds (drop 1 rest) expected_size
          (decoded ++ replicate count (get_or rest 0 0))

unfoldable pub decompress : ByteView → ℕ → Result (List ℕ)
unfolding decompress_loop
decompress input expected_size = do
  reject_if (not (valid input)) ErrorCode.invalid_argument
  decompress_loop (size input) (contents input) expected_size []

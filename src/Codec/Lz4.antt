-- ===== src/Codec/Lz4.antt =====
-- `Lz4BlockCodec` and its helpers. What is appended to the output stands in front of what the later
-- rounds append.
pub mod Decode
use tfdb.Prelude.{
  ℕ, zero, suc, ◌+◌, ◌-◌, ◌*◌, ◌/◌, ◌%◌, ◌^◌, ◌≤◌, ◌<◌, min, max, bit_and, bit_or, bit_xor, ◌≡◌,
  refl, sym, ap, ◌∙◌, ◌≢◌, ◌↔◌, ◌⊎◌, inl, inr, Bool, true, false, not, ◌&&◌, ◌||◌, Option, none,
  some, List, [], ◌∷◌, ◌++◌, map, append-nil, append_assoc, arith, ltb, leb, ◌==◌, if◌then◌else◌,
  ltb→lt, lt→ltb, leb→le, ==_iff, Bool-cases, Option-cases, length, get_elem?, set, length-append,
  length-set, get_or, take, drop, replicate, take-append-drop, length-take, length-drop,
  length-replicate, ℤ, pos, negsuc, pos_part, neg_part, ◌≤ℤ◌, ltb_ℤ, min_ℤ, max_ℤ,
}
use tfdb.Status.{
  ErrorCode, Status, ok, error, Result, returns, fails, ◌>>=◌, ◌>>◌, reject_if, is_ok,
}
use tfdb.Bytes.{ByteView, valid, contents, size, get32}
use tfdb.Codec.PackBits.{size_max}

abbrev pub min_match : ℕ
min_match = 4

abbrev pub last_literals : ℕ
last_literals = 5

abbrev pub match_find_limit : ℕ
match_find_limit = 12

abbrev pub max_distance : ℕ
max_distance = 65535

abbrev pub hash_log : ℕ
hash_log = 12

unfoldable pub max_compressed_size : ℕ → ℕ
max_compressed_size input_size =
    let overhead = input_size / 255 + 16 in
    if ltb (size_max - overhead) input_size then size_max else input_size + overhead

-- The four bytes at a position, lowest first, as `get32` reads them.
unfoldable pub load32 : List ℕ → ℕ → ℕ
load32 input position = get32 input position

unfoldable pub hash : ℕ → ℕ
hash sequence = sequence * 2654435761 % 2 ^ 32 / 2 ^ (32 - hash_log)

-- A round subtracts 255, so `remaining` rounds are enough.
unfoldable pub write_length_loop : ℕ → ℕ → List ℕ
write_length_loop zero remaining = remaining % 256 ∷ []
write_length_loop (suc rounds) remaining =
    let more = 255 ∷ write_length_loop rounds (remaining - 255) in
    if leb 255 remaining then more else remaining % 256 ∷ []

unfoldable pub write_length : ℕ → List ℕ
unfolding write_length_loop
write_length remaining = write_length_loop remaining remaining

-- The high nibble of the token, and the bytes that continue it.
abbrev literal_nibble : ℕ → ℕ
literal_nibble literal_count = if leb 15 literal_count then 0xf0 else literal_count * 2 ^ 4 % 256

abbrev pub length_bytes : ℕ → List ℕ
length_bytes count = if leb 15 count then write_length (count - 15) else []

unfoldable pub emit_sequence : List ℕ → ℕ → ℕ → ℕ → ℕ → List ℕ
unfolding write_length
emit_sequence input literal_begin literal_count distance match_length =
    let encoded_match = match_length - min_match in
    let token =
      bit_or (literal_nibble literal_count) (if leb 15 encoded_match then 0x0f else encoded_match)
      % 256 in
    token
    ∷ (length_bytes literal_count
        ++ (take literal_count (drop literal_begin input)
            ++ (bit_and distance 0xff
                ∷ bit_and (distance / 2 ^ 8) 0xff
                ∷ length_bytes encoded_match)))

unfoldable pub emit_last_literals : List ℕ → ℕ → ℕ → List ℕ
unfolding write_length
emit_last_literals input literal_begin literal_count =
    literal_nibble literal_count
    ∷ (length_bytes literal_count ++ take literal_count (drop literal_begin input))

-- The loop that extends a match. A round adds one to `length`, which stays below `match_limit`.
unfoldable pub extend_match : ℕ → List ℕ → ℕ → ℕ → ℕ → ℕ → ℕ
extend_match zero input position candidate match_limit match_length = match_length
extend_match (suc rounds) input position candidate match_limit match_length =
    let more = extend_match rounds input position candidate match_limit (match_length + 1) in
    if ltb (position + match_length) match_limit
      && get_or input (candidate + match_length) 0 == get_or input (position + match_length) 0
    then more
    else match_length

-- The outer loop, and the last literals after it. A round moves `position` on by one at least.
unfoldable pub search_loop : ℕ → List ℕ → ℕ → ℕ → List ℕ → List ℕ
unfolding hash load32 emit_sequence emit_last_literals extend_match
search_loop zero input position anchor table =
    emit_last_literals input anchor (length input - anchor)
search_loop (suc rounds) input position anchor table =
    let slot = hash (load32 input position) in
    let seen = get_or table slot 0 in
    let table' = set table slot (position + 1) in
    let candidate = seen - 1 in
    let distance = position - candidate in
    let no_match = search_loop rounds input (position + 1) anchor table' in
    let match_length =
      extend_match (length input) input position candidate (length input - last_literals)
        min_match in
    let matched =
      emit_sequence input anchor (position - anchor) distance match_length
      ++ search_loop rounds input (position + match_length) (position + match_length) table' in
    if ltb position (length input - match_find_limit)
    then (if seen == 0
          || ltb max_distance distance
          || not (load32 input candidate == load32 input position)
        then no_match
        else matched)
    else emit_last_literals input anchor (length input - anchor)

unfoldable pub compress : ByteView → Result (List ℕ)
unfolding search_loop
compress input = do
  reject_if (not (valid input)) ErrorCode.invalid_argument
  returns (
      if ltb match_find_limit (size input)
      then search_loop (size input) (contents input) 0 0 (replicate (2 ^ hash_log) 0)
      else emit_last_literals (contents input) 0 (size input))

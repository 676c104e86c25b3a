-- ===== src/Codec/PackBits/RoundTrip.antt =====
-- `compress` of `PackBitsCodec` followed by `decompress`.
use tfdb.Prelude.{
  lt_or_ge, ℕ, zero, suc, ◌+◌, ◌-◌, ◌%◌, ◌≤◌, ◌<◌, bit_and, bit_or, ◌≡◌, refl, ap, ◌∙◌, inl, inr,
  Bool, true, false, not, ◌&&◌, List, [], ◌∷◌, ◌++◌, append-nil, append_assoc, arith, ◌==◌, length,
  length-append, take, drop, replicate, take-append-drop, length-take, length-drop,
}
use tfdb.Status.{returns, ◌>>=◌}
use tfdb.Codec.PackBits.Runs.{
  literals_bounds, literals, length-run_round, length-literal_round, compress_nil,
  compress_run_round, compress_literal_round, repeated-IsRun,
}
use tfdb.Codec.PackBits.{decompress, compress, repeated, compress_loop, decompress_loop}
use tfdb.Bytes.Store.{drop-exact, take-exact}
use tfdb.Bytes.{bytes}

-- The tests on the tokens, checked for every value.
module _ (test : ℕ → Bool) where
  passes_under : ℕ → Bool
  passes_under (suc bound) = passes_under bound && test bound
  passes_under zero = true

  passes : (bound value : ℕ) → value < bound → passes_under bound ≡ true → test value ≡ true
  unfolding passes_under
  passes (suc bound) value small table = elim (lt_or_ge value bound) [
    | inl smaller ↦ passes bound value smaller (ground arith)
    | inr last ↦ (let same : value ≡ bound = omega arith in rw same (ground arith))
  ]
  passes zero value small table = absurd (omega arith)

literal_tokens : passes_under (λ t. bit_and t 0x80 == 0) 128 ≡ true
unfolding passes_under
literal_tokens = refl

run_tokens :
    passes_under
      (λ r.
        not (bit_and (bit_or 0x80 r % 256) 0x80 == 0) && bit_and (bit_or 0x80 r % 256) 0x7f == r)
      128
    ≡ true
unfolding passes_under
run_tokens = refl

run_token :
    (r : ℕ)
    → r < 128
    → ((bit_and (bit_or 0x80 r % 256) 0x80 == 0) ≡ false) × (bit_and (bit_or 0x80 r % 256) 0x7f ≡ r)
run_token r h =
    let both =
      passes
        (λ r.
          not (bit_and (bit_or 0x80 r % 256) 0x80 == 0) && bit_and (bit_or 0x80 r % 256) 0x7f == r)
        128 r h run_tokens in
    ground arith

-- A token and what it stands for.
decompress_literal :
    (rounds count : ℕ) (literals rest decoded : List ℕ) (expected_size : ℕ)
    → length literals ≡ count
    → 1 ≤ count
    → count ≤ 128
    → count ≤ expected_size - length decoded
    → decompress_loop (suc rounds) ((count - 1) % 256 ∷ (literals ++ rest)) expected_size decoded
      ≡ decompress_loop rounds rest expected_size (decoded ++ literals)
unfolding decompress_loop
decompress_literal rounds count literals rest decoded expected_size sized positive short room =
    let value : (count - 1) % 256 ≡ count - 1 = omega arith in
    let next : count - 1 + 1 ≡ count = omega arith in
    rw
      (
        value,
        passes (λ t. bit_and t 0x80 == 0) 128 (count - 1) (omega arith) literal_tokens,
        next,
        take-exact count literals rest sized,
        drop-exact count literals rest sized,
      )
      (ground (arith, length-append literals rest))

decompress_run :
    (rounds run b : ℕ) (rest decoded : List ℕ) (expected_size : ℕ)
    → 3 ≤ run
    → run ≤ 130
    → run ≤ expected_size - length decoded
    → decompress_loop (suc rounds) (bit_or 0x80 (run - 3) % 256 ∷ b ∷ rest) expected_size decoded
      ≡ decompress_loop rounds rest expected_size (decoded ++ replicate run b)
unfolding decompress_loop
decompress_run rounds run b rest decoded expected_size long short room =
    let token = run_token (run - 3) (omega arith) in
    let next : run - 3 + 3 ≡ run = omega arith in rw (token.0, token.1, next) (ground arith)

decompress_nil :
    (rounds expected_size : ℕ) (decoded : List ℕ)
    → expected_size ≡ length decoded
    → decompress_loop rounds [] expected_size decoded ≡ returns decoded
unfolding decompress_loop
decompress_nil zero expected_size decoded e = ground arith
decompress_nil (suc rounds) expected_size decoded e = ground arith

-- A prefix of the input that is decoded joins the rest.
rejoin : (n : ℕ) (decoded rest : List ℕ) → (decoded ++ take n rest) ++ drop n rest ≡ decoded ++ rest
rejoin n decoded rest =
    append_assoc decoded (take n rest) (drop n rest)
    ∙ ap (λ t. decoded ++ t) (take-append-drop n rest)

-- Decoding what is encoded appends it to what is decoded already.
decompress-compress_loop :
    (rounds decode_rounds : ℕ) (rest decoded : List ℕ) (expected_size : ℕ)
    → length rest ≤ rounds
    → length (compress_loop rounds rest) ≤ decode_rounds
    → expected_size ≡ length decoded + length rest
    → decompress_loop decode_rounds (compress_loop rounds rest) expected_size decoded
      ≡ returns (decoded ++ rest)
decompress-compress_loop zero g [] decoded expected_size h k e =
    rw (compress_nil zero, decompress_nil g expected_size decoded (omega arith), append-nil decoded)
decompress-compress_loop zero g (b ∷ bs) decoded expected_size h k e = absurd (omega arith)
decompress-compress_loop (suc f) g [] decoded expected_size h k e =
    rw (
      compress_nil (suc f),
      decompress_nil g expected_size decoded (omega arith),
      append-nil decoded,
    )
decompress-compress_loop (suc f) zero (b ∷ bs) decoded expected_size h k e =
    elim (lt_or_ge (repeated (b ∷ bs)) 3) [
      | inl short ↦ absurd (omega (arith, length-literal_round f b bs short))
      | inr long ↦ absurd (omega (arith, length-run_round f b bs long))
    ]
decompress-compress_loop (suc f) (suc g) (b ∷ bs) decoded expected_size h k e =
    elim (lt_or_ge (repeated (b ∷ bs)) 3) [
      | inl short ↦
          let count : ℕ = literals b bs in
          let (positive, most, fits) = literals_bounds b bs short in
          let sized : length (take count (b ∷ bs)) ≡ count =
            omega (arith, length-take count (b ∷ bs)) in
          let left : length (drop count (b ∷ bs)) ≡ length bs + 1 - count =
            omega (arith, length-drop count (b ∷ bs)) in
          rw
            (
              compress_literal_round f b bs short,
              decompress_literal g count (take count (b ∷ bs))
                  (compress_loop f (drop count (b ∷ bs))) decoded expected_size sized positive most
                  (omega arith),
              decompress-compress_loop f g (drop count (b ∷ bs)) (decoded ++ take count (b ∷ bs))
                  expected_size (omega arith) (omega (arith, length-literal_round f b bs short))
                  (omega (arith, length-append decoded (take count (b ∷ bs)))),
            )
            (ap returns (rejoin count decoded (b ∷ bs)))
      | inr long ↦
          let run : ℕ = repeated (b ∷ bs) in
          let is_run = repeated-IsRun b bs in
          let left : length (drop run (b ∷ bs)) ≡ length bs + 1 - run =
            omega (arith, length-drop run (b ∷ bs)) in
          rw
            (
              compress_run_round f b bs long,
              decompress_run g run b (compress_loop f (drop run (b ∷ bs))) decoded expected_size
                  long is_run.short (omega (arith, is_run.fits)),
              ← is_run.same,
              decompress-compress_loop f g (drop run (b ∷ bs)) (decoded ++ take run (b ∷ bs))
                  expected_size (omega (arith, is_run.positive))
                  (omega (arith, length-run_round f b bs long))
                  (omega (
                    arith,
                    length-append decoded (take run (b ∷ bs)),
                    length-take run (b ∷ bs),
                    is_run.fits,
                  )),
            )
            (ap returns (rejoin run decoded (b ∷ bs)))
    ]

-- What PackBits compresses, it decompresses to the same bytes, given their number.
pub decompress-compress :
    (input : List ℕ)
    → (compress (bytes input) >>= λ encoded. decompress (bytes encoded) (length input))
      ≡ returns input
unfolding compress decompress
decompress-compress input =
    decompress-compress_loop (length input) (length (compress_loop (length input) input)) input []
      (length input) (omega arith) (omega arith) (omega arith)

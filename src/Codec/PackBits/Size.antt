-- ===== src/Codec/PackBits/Size.antt =====
-- The size of what `compress` of `PackBitsCodec` writes, and `max_compressed_size`.
use tfdb.Prelude.{
  lt_or_ge, ℕ, zero, suc, ◌+◌, ◌*◌, ◌/◌, ◌^◌, ◌≤◌, ◌<◌, ◌≡◌, refl, inl, inr, List, [], ◌∷◌, arith,
  length, drop, length-drop,
}
use tfdb.Status.{returns}
use tfdb.Codec.PackBits.{max_compressed_size, compress, repeated, compress_loop}
use tfdb.Codec.PackBits.Runs.{
  literals-IsLiteral, length-run_round, repeated-IsRun, length-literal_round, literals_bounds,
  literals, compress_nil,
}
use tfdb.Bytes.Store.{drop-drop}
use tfdb.Bytes.{bytes}

-- A bound that counts a byte for each 128 begun, and one less where the input starts with a run.
size_bounds :
    (rounds : ℕ) (rest : List ℕ)
    → length rest ≤ rounds
    → (length (compress_loop rounds rest) ≤ length rest + (length rest + 127) / 128)
      × (3 ≤ repeated rest
          → length (compress_loop rounds rest) + 1 ≤ length rest + (length rest + 127) / 128)
size_bounds rounds [] h =
    rw compress_nil (omega arith, λ run. absurd (unfold repeated in omega arith))
size_bounds zero (b ∷ bs) h = absurd (omega arith)
size_bounds (suc f) (b ∷ bs) h = elim (lt_or_ge (repeated (b ∷ bs)) 3) [
  | inl short ↦
      let count : ℕ = literals b bs in
      let (positive, most, fits) = literals_bounds b bs short in
      let sized = length-literal_round f b bs short in
      let left = length-drop count (b ∷ bs) in
      let ih = size_bounds f (drop count (b ∷ bs)) (omega arith) in
      (
        elim (literals-IsLiteral b bs short).stops [
          | inl full ↦ omega arith
          | inr (inl end) ↦ omega (arith, length-drop (repeated (b ∷ bs)) (b ∷ bs))
          | inr (inr (k, e, run, inside)) ↦
              let here : 3 ≤ repeated (drop count (b ∷ bs)) =
                rw (drop-drop (repeated (b ∷ bs)) k (b ∷ bs), ← e) at run in
              let saved = ih.1 here in omega arith
        ],
        λ run. absurd (omega arith),
      )
  | inr long ↦
      let run : ℕ = repeated (b ∷ bs) in
      let is_run = repeated-IsRun b bs in
      let sized = length-run_round f b bs long in
      let left = length-drop run (b ∷ bs) in
      let ih = size_bounds f (drop run (b ∷ bs)) (omega (arith, is_run.positive)) in
      let less : length (compress_loop (suc f) (b ∷ bs)) + 1
          ≤ length (b ∷ bs) + (length (b ∷ bs) + 127) / 128 =
        omega (arith, is_run.fits) in
      (omega arith, λ _. less)
]

-- PackBits never writes more than `max_compressed_size` bytes, for an input so small that this bound
-- does not saturate.
pub compress-le-max :
    (input : List ℕ)
    → length input + 2 * (length input / 128 + 1) < 2 ^ 64
    → (encoded : List ℕ) × (compress (bytes input) ≡ returns encoded)
      × (length encoded ≤ max_compressed_size (length input))
unfolding compress max_compressed_size
compress-le-max input small =
    let bound = (size_bounds (length input) input (omega arith)).0 in
    (compress_loop (length input) input, refl, ground arith)

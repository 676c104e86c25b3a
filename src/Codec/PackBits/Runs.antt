-- ===== src/Codec/PackBits/Runs.antt =====
-- What `repeated` and the loop over literals find.
use tfdb.Prelude.{
  ℕ, zero, suc, ◌+◌, ◌-◌, ◌%◌, ◌≤◌, ◌<◌, min, max, bit_or, ◌≡◌, refl, ap, ◌⊎◌, inl, inr, true,
  false, ◌&&◌, List, [], ◌∷◌, ◌++◌, arith, ltb, leb, ◌==◌, leb→le, Bool-cases, length,
  length-append, take, drop, replicate, length-take, length-drop,
}
use tfdb.Codec.PackBits.{
  compress_loop, drop, replicate, ltb, take, suc, length, run_loop, repeated, literal_loop,
}
use tfdb.Bytes.Store.{drop-drop}

-- The bytes that `run_loop` passes, and its result.
abbrev HasRun : ℕ → List ℕ → ℕ → ℕ → Type 0
HasRun first bs count found =
    (k : ℕ) × (found ≡ count + k)
    × (k ≤ length bs)
    × (take k bs ≡ replicate k first)
    × (found ≤ max count 130)

run_loop-HasRun :
    (first : ℕ) (bs : List ℕ) (count : ℕ) → HasRun first bs count (run_loop first bs count)
unfolding run_loop
run_loop-HasRun first [] count = (0, omega arith, omega arith, refl, omega arith)
run_loop-HasRun first (b ∷ bs) count = elim (Bool-cases (ltb count 130 && b == first)) [
  | inl more ↦
      let (k, e, fits, same, bound) = run_loop-HasRun first bs (count + 1) in
      let facts : (count < 130) × (b ≡ first) = ground arith in
      rw more (suc k, omega arith, omega arith, cc (facts.1, same), omega arith)
  | inr stop ↦ rw stop (0, omega arith, omega arith, refl, omega arith)
]

-- A run is one to 130 bytes that are all the first one.
pub record IsRun (b : ℕ) (bs : List ℕ) (run : ℕ) : Type 0 where
  pub positive : 1 ≤ run
  pub short : run ≤ 130
  pub fits : run ≤ length bs + 1
  pub same : take run (b ∷ bs) ≡ replicate run b

pub repeated-IsRun : (b : ℕ) (bs : List ℕ) → IsRun b bs (repeated (b ∷ bs))
unfolding repeated
repeated-IsRun b bs =
    let (k, e, fits, same, bound) = run_loop-HasRun b bs 1 in
    let next : run_loop b bs 1 ≡ suc k = omega arith in
    rw next (record {
      positive = omega arith;
      short = omega arith;
      fits = omega arith;
      same = ap (λ t. b ∷ t) same;
    })

-- Where the loop over literals stops: at the end of the input, before a run, or after 128 bytes.
pub record IsLiteral (rest : List ℕ) (count found : ℕ) : Type 0 where
  pub grows : count ≤ found
  pub short : found ≤ 128
  pub fits : found ≤ count + length rest
  pub stops :
      (found ≡ 128)
      ⊎ (found ≡ count + length rest)
      ⊎ ((k : ℕ) × (found ≡ count + k) × (3 ≤ repeated (drop k rest)) × (k < length rest))

-- One round that takes bytes, and what the later rounds find.
later :
    (rest : List ℕ) (count step found : ℕ)
    → 1 ≤ step
    → step ≤ length rest
    → IsLiteral (drop step rest) (count + step) found
    → IsLiteral rest count found
later rest count step found taken fits found_later = record {
  grows = omega (arith, found_later.grows);
  short = found_later.short;
  fits = omega (arith, found_later.fits, length-drop step rest);
  stops = elim found_later.stops [
    | inl full ↦ inl full
    | inr (inl end) ↦ inr (inl (omega (arith, length-drop step rest)))
    | inr (inr (k, e, run, inside)) ↦ inr (
        inr (
          step + k,
          omega arith,
          rw (drop-drop step k rest) at run,
          omega (arith, length-drop step rest),
        ))
  ];
}

pub literal_loop-IsLiteral :
    (rounds : ℕ) (rest : List ℕ) (count : ℕ)
    → length rest ≤ rounds
    → count ≤ 128
    → IsLiteral rest count (literal_loop rounds rest count)
unfolding literal_loop
literal_loop-IsLiteral zero [] count h k = record {
  grows = omega arith;
  short = k;
  fits = omega arith;
  stops = inr (inl (omega arith));
}
literal_loop-IsLiteral zero (b ∷ bs) count h k = absurd (omega arith)
literal_loop-IsLiteral (suc rounds) [] count h k = record {
  grows = omega arith;
  short = k;
  fits = omega arith;
  stops = inr (inl (omega arith));
}
literal_loop-IsLiteral (suc rounds) (b ∷ bs) count h k = elim (Bool-cases (ltb count 128)) [
  | inr full ↦
      rw full
        (record { grows = omega arith; short = k; fits = omega arith; stops = inl (ground arith) })
  | inl room ↦ elim (Bool-cases (leb 3 (repeated (b ∷ bs)))) [
    | inl run ↦
        rw (room, run)
          (record {
            grows = omega arith;
            short = k;
            fits = omega arith;
            stops = inr (inr (0, omega arith, leb→le 3 (repeated (b ∷ bs)) run, omega arith));
          })
    | inr no_run ↦
        let run = repeated-IsRun b bs in
        let step : ℕ = min (repeated (b ∷ bs)) (128 - count) in
        let left : 1 ≤ 128 - count = ground arith in
        rw (room, no_run)
          (later (b ∷ bs) count step _ (omega (arith, run.positive)) (omega (arith, run.fits)) (
            literal_loop-IsLiteral rounds (drop step (b ∷ bs)) (count + step)
              (omega (arith, length-drop step (b ∷ bs), run.positive)) (omega arith)))
  ]
]

-- The two kinds of round of `compress_loop`.
pub compress_run_round :
    (rounds b : ℕ) (bs : List ℕ)
    → 3 ≤ repeated (b ∷ bs)
    → compress_loop (suc rounds) (b ∷ bs)
      ≡ bit_or 0x80 (repeated (b ∷ bs) - 3) % 256
        ∷ b
        ∷ compress_loop rounds (drop (repeated (b ∷ bs)) (b ∷ bs))
unfolding compress_loop
compress_run_round rounds b bs long =
    let short : min (repeated (b ∷ bs)) 130 ≡ repeated (b ∷ bs) =
      omega (arith, (repeated-IsRun b bs).short) in
    let test : leb 3 (repeated (b ∷ bs)) ≡ true = ground arith in rw (short, test)

-- The literals of a round that starts at `b`.
pub literals : ℕ → List ℕ → ℕ
literals b bs =
    literal_loop (length (b ∷ bs)) (drop (repeated (b ∷ bs)) (b ∷ bs)) (repeated (b ∷ bs))

pub compress_literal_round :
    (rounds b : ℕ) (bs : List ℕ)
    → repeated (b ∷ bs) < 3
    → compress_loop (suc rounds) (b ∷ bs)
      ≡ (literals b bs - 1) % 256
        ∷ (take (literals b bs) (b ∷ bs) ++ compress_loop rounds (drop (literals b bs) (b ∷ bs)))
unfolding compress_loop literals
compress_literal_round rounds b bs short =
    let test : leb 3 (repeated (b ∷ bs)) ≡ false = ground arith in rw test

pub literals-IsLiteral :
    (b : ℕ) (bs : List ℕ)
    → repeated (b ∷ bs) < 3
    → IsLiteral (drop (repeated (b ∷ bs)) (b ∷ bs)) (repeated (b ∷ bs)) (literals b bs)
unfolding literals
literals-IsLiteral b bs short =
    literal_loop-IsLiteral (length (b ∷ bs)) (drop (repeated (b ∷ bs)) (b ∷ bs)) (repeated (b ∷ bs))
      (omega (arith, length-drop (repeated (b ∷ bs)) (b ∷ bs))) (omega arith)

pub literals_bounds :
    (b : ℕ) (bs : List ℕ)
    → repeated (b ∷ bs) < 3
    → (1 ≤ literals b bs) × (literals b bs ≤ 128) × (literals b bs ≤ length bs + 1)
literals_bounds b bs short = omega (
  arith,
  (literals-IsLiteral b bs short).grows,
  (literals-IsLiteral b bs short).short,
  (literals-IsLiteral b bs short).fits,
  (repeated-IsRun b bs).positive,
  (repeated-IsRun b bs).fits,
  length-drop (repeated (b ∷ bs)) (b ∷ bs),
)

pub compress_nil : (rounds : ℕ) → compress_loop rounds [] ≡ []
unfolding compress_loop
compress_nil zero = refl
compress_nil (suc rounds) = refl

-- The lengths of the two kinds of round.
pub length-run_round :
    (rounds b : ℕ) (bs : List ℕ)
    → 3 ≤ repeated (b ∷ bs)
    → length (compress_loop (suc rounds) (b ∷ bs))
      ≡ 2 + length (compress_loop rounds (drop (repeated (b ∷ bs)) (b ∷ bs)))
length-run_round rounds b bs long =
    omega (arith, ap (λ (t : List ℕ). length t) (compress_run_round rounds b bs long))

pub length-literal_round :
    (rounds b : ℕ) (bs : List ℕ)
    → repeated (b ∷ bs) < 3
    → length (compress_loop (suc rounds) (b ∷ bs))
      ≡ 1 + literals b bs + length (compress_loop rounds (drop (literals b bs) (b ∷ bs)))
length-literal_round rounds b bs short =
    let count : ℕ = literals b bs in
    omega (
      arith,
      ap (λ (t : List ℕ). length t) (compress_literal_round rounds b bs short),
      length-append (take count (b ∷ bs)) (compress_loop rounds (drop count (b ∷ bs))),
      length-take count (b ∷ bs),
      literals_bounds b bs short,
    )

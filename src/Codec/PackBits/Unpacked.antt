-- ===== src/Codec/PackBits/Unpacked.antt =====
-- `decompress` of `PackBitsCodec` on arbitrary bytes, against the format of the tokens.
use tfdb.Prelude.{
  ℕ, zero, suc, ◌+◌, ◌-◌, ◌≤◌, bit_and, ◌≡◌, refl, sym, ap, ◌∙◌, inl, inr, ◌⊎◌, Bool, true, false,
  not, ◌||◌, List, [], ◌∷◌, ◌++◌, arith, ltb, ◌==◌, Bool-cases, length, take, drop, replicate,
  length-drop, length-take, length-replicate, length-append, neither, not_below, append-nil,
  append_assoc,
}
use tfdb.Status.{ErrorCode, Result, returns, fails, reject_if, ◌>>◌}
use tfdb.Codec.PackBits.{decompress, decompress_loop}
use tfdb.Bytes.{bytes}

-- The bytes that a sequence of tokens stands for: a token below 128 is followed by one more literal
-- than it says, any other by a byte that is repeated three times more than its low bits say.
pub data Unpacks : List ℕ → List ℕ → Type 0 where
  ended : Unpacks [] []
  literals :
      (token : ℕ) (rest out : List ℕ)
      → ((bit_and token 0x80 == 0) ≡ true)
      → token + 1 ≤ length rest
      → Unpacks (drop (token + 1) rest) out
      → Unpacks (token ∷ rest) (take (token + 1) rest ++ out)
  run :
      (token b : ℕ) (rest out : List ℕ)
      → ((bit_and token 0x80 == 0) ≡ false)
      → Unpacks rest out
      → Unpacks (token ∷ b ∷ rest) (replicate (bit_and token 0x7f + 3) b ++ out)

abbrev Follows : List ℕ → List ℕ → List ℕ → Type 0
Follows rest chunk out = (out' : List ℕ) × (out ≡ chunk ++ out') × Unpacks rest out'

literals_back :
    (token : ℕ) (rest out : List ℕ)
    → ((bit_and token 0x80 == 0) ≡ true)
    → Unpacks (token ∷ rest) out
    → (token + 1 ≤ length rest) × Follows (drop (token + 1) rest) (take (token + 1) rest) out
literals_back token rest out low (literals _ _ out' low' enough u) = (enough, (out', refl, u))
literals_back token rest out low (run _ b rest' out' high u) = absurd cc

run_back :
    (token : ℕ) (b : ℕ) (rest out : List ℕ)
    → ((bit_and token 0x80 == 0) ≡ false)
    → Unpacks (token ∷ b ∷ rest) out
    → Follows rest (replicate (bit_and token 0x7f + 3) b) out
run_back token b rest out high (literals _ _ out' low enough u) = absurd cc
run_back token b rest out high (run _ _ _ out' high' u) = (out', refl, u)

no_run :
    (token : ℕ) (out : List ℕ) → ((bit_and token 0x80 == 0) ≡ false) → Unpacks (token ∷ []) out → ⊥
no_run token out high (literals _ _ out' low enough u) = absurd cc

-- The answer of the loop, after what was decoded before.
abbrev pub Answer : ℕ → List ℕ → List ℕ → Result (List ℕ) → Type 0
Answer n rest decoded (returns r) =
    (out : List ℕ) × (r ≡ decoded ++ out) × Unpacks rest out × (length r ≡ n)
Answer n rest decoded (fails code) =
    (code ≡ ErrorCode.corrupt)
    × ((out : List ℕ) → Unpacks rest out → (length (decoded ++ out) ≡ n) → ⊥)

extend-Answer :
    (n : ℕ) (all rest decoded chunk : List ℕ) (r : Result (List ℕ))
    → ((out : List ℕ) → Unpacks rest out → Unpacks all (chunk ++ out))
    → ((out : List ℕ) → Unpacks all out → Follows rest chunk out)
    → Answer n rest (decoded ++ chunk) r
    → Answer n all decoded r
extend-Answer n all rest decoded chunk (returns r) there back (out, e, u, sized) =
    (chunk ++ out, e ∙ append_assoc decoded chunk out, there out u, sized)
extend-Answer n all rest decoded chunk (fails code) there back (corrupt_, none_) = (
  corrupt_,
  λ out u sized.
      let (out', e, u') = back out u in
      none_ out' u' (
        ap (λ xs. length xs) (append_assoc decoded chunk out' ∙ ap (λ xs. decoded ++ xs) (sym e))
        ∙ sized),
)

too_long :
    (n : ℕ) (decoded chunk out : List ℕ) (count : ℕ)
    → (length chunk ≡ count)
    → (ltb (n - length decoded) count ≡ true)
    → (length (decoded ++ (chunk ++ out)) ≡ n)
    → ⊥
too_long n decoded chunk out count e h sized =
    let sizes = rw (length-append, length-append) at sized in ground arith

-- A test before the rest of a round: what it refuses has no answer of the size.
reject-Answer :
    (test : Bool) (n : ℕ) (rest decoded : List ℕ) (r : Result (List ℕ))
    → ((test ≡ true) → (out : List ℕ) → Unpacks rest out → (length (decoded ++ out) ≡ n) → ⊥)
    → ((test ≡ false) → Answer n rest decoded r)
    → Answer n rest decoded (reject_if test ErrorCode.corrupt >> r)
reject-Answer true n rest decoded r bad good = (refl, bad refl)
reject-Answer false n rest decoded r bad good = good refl

either : (a b : Bool) → (a || b ≡ true) → (a ≡ true) ⊎ (b ≡ true)
either true b h = inl refl
either false b h = inr h

below : {a b : ℕ} → (ltb a b ≡ true) → b ≤ a → ⊥
below h k = ground arith

literals-Answer :
    (t n : ℕ) (rest decoded : List ℕ) (r : Result (List ℕ))
    → ((bit_and t 0x80 == 0) ≡ true)
    → Answer n (drop (t + 1) rest) (decoded ++ take (t + 1) rest) r
    → Answer n (t ∷ rest) decoded (
        reject_if (ltb (length rest) (t + 1) || ltb (n - length decoded) (t + 1)) ErrorCode.corrupt
        >> r)
literals-Answer t n rest decoded r low later =
    reject-Answer _ n (t ∷ rest) decoded r
      (λ bad out u sized.
        let (enough, (out', e, u')) = literals_back t rest out low u in
        elim (either (ltb (length rest) (t + 1)) (ltb (n - length decoded) (t + 1)) bad) [
          | inl short ↦ below short enough
          | inr long ↦
              too_long n decoded (take (t + 1) rest) out' (t + 1)
                (length-take (t + 1) rest ∙ omega (arith, enough)) long
                (ap (λ xs. length (decoded ++ xs)) (sym e) ∙ sized)
        ])
      (λ good.
        let enough = not_below (neither good).0 in
        extend-Answer n (t ∷ rest) (drop (t + 1) rest) decoded (take (t + 1) rest) r
          (λ out u. literals t rest out low enough u) (λ out u. (literals_back t rest out low u).1)
          later)

not_empty : (b : ℕ) (rest : List ℕ) → ((length (b ∷ rest) == 0) ≡ true) → ⊥
not_empty b rest h = ground arith

run-Answer :
    (t b n : ℕ) (rest decoded : List ℕ) (r : Result (List ℕ))
    → ((bit_and t 0x80 == 0) ≡ false)
    → Answer n rest (decoded ++ replicate (bit_and t 0x7f + 3) b) r
    → Answer n (t ∷ b ∷ rest) decoded (
        reject_if
          (length (b ∷ rest) == 0 || ltb (n - length decoded) (bit_and t 0x7f + 3))
          ErrorCode.corrupt
        >> r)
run-Answer t b n rest decoded r high later =
    let chunk = replicate (bit_and t 0x7f + 3) b in
    reject-Answer _ n (t ∷ b ∷ rest) decoded r
      (λ bad out u sized.
        let (out', e, u') = run_back t b rest out high u in
        elim (either (length (b ∷ rest) == 0) (ltb (n - length decoded) (bit_and t 0x7f + 3)) bad) [
          | inl nothing ↦ not_empty b rest nothing
          | inr long ↦
              too_long n decoded chunk out' (bit_and t 0x7f + 3)
                (length-replicate (bit_and t 0x7f + 3) b) long
                (ap (λ xs. length (decoded ++ xs)) (sym e) ∙ sized)
        ])
      (λ good.
        extend-Answer n (t ∷ b ∷ rest) rest decoded chunk r (λ out u. run t b rest out high u)
          (λ out u. run_back t b rest out high u) later)

nothing_left : (out : List ℕ) → Unpacks [] out → out ≡ []
nothing_left out ended = refl

ended-Answer :
    (n : ℕ) (decoded : List ℕ)
    → Answer n [] decoded
        (reject_if (not (length decoded == n)) ErrorCode.corrupt >> returns decoded)
ended-Answer n decoded =
    reject-Answer _ n [] decoded (returns decoded)
      (λ bad out u sized. let all = rw (nothing_left out u, append-nil) at sized in ground arith)
      (λ good. ([], sym (append-nil decoded), ended, ground arith))

decompress_loop-Answer :
    (rounds : ℕ) (rest : List ℕ) (n : ℕ) (decoded : List ℕ)
    → length rest ≤ rounds
    → Answer n rest decoded (decompress_loop rounds rest n decoded)
unfolding decompress_loop
decompress_loop-Answer zero [] n decoded h = ended-Answer n decoded
decompress_loop-Answer (suc rounds) [] n decoded h = ended-Answer n decoded
decompress_loop-Answer zero (t ∷ rest) n decoded h = absurd (omega arith)
decompress_loop-Answer (suc rounds) (t ∷ []) n decoded h =
    let later =
      decompress_loop-Answer rounds (drop (t + 1) []) n (decoded ++ take (t + 1) [])
        (omega (arith, h, length-drop {A = ℕ} (t + 1) [])) in
    elim (Bool-cases (bit_and t 0x80 == 0)) [
      | inl low ↦ rw low (literals-Answer t n [] decoded _ low later)
      | inr high ↦ rw high (refl, λ out u sized. no_run t out high u)
    ]
decompress_loop-Answer (suc rounds) (t ∷ b ∷ rest) n decoded h =
    let later =
      decompress_loop-Answer rounds (drop (t + 1) (b ∷ rest)) n (decoded ++ take (t + 1) (b ∷ rest))
        (omega (arith, h, length-drop (t + 1) (b ∷ rest))) in
    let later' =
      decompress_loop-Answer rounds rest n (decoded ++ replicate (bit_and t 0x7f + 3) b)
        (omega (arith, h)) in
    elim (Bool-cases (bit_and t 0x80 == 0)) [
      | inl low ↦ rw low (literals-Answer t n (b ∷ rest) decoded _ low later)
      | inr high ↦ rw high (run-Answer t b n rest decoded _ high later')
    ]

-- Of any bytes, `decompress` either returns what they unpack to, of the expected size, or it returns
-- corrupt, and then they unpack to nothing of that size.
pub decompress-Answer :
    (input : List ℕ) (expected_size : ℕ)
    → Answer expected_size input [] (decompress (bytes input) expected_size)
unfolding decompress
decompress-Answer input n = decompress_loop-Answer (length input) input n [] (omega arith)

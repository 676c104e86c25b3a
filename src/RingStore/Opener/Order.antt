-- ===== src/RingStore/Opener/Order.antt =====
-- Lists of generations: distinct ones, and ascending ones, along the loops of `open`.
use tfdb.Prelude.{
  ℕ, ◌<◌, ◌≡◌, refl, ap, ◌∙◌, inl, inr, Bool, true, false, not, ◌&&◌, ◌||◌, List, [], ◌∷◌, ◌++◌,
  arith, ltb, ◌==◌, Bool-cases, neither, ltb→lt,
}
use tfdb.RingStore.State.{PartitionState}
use tfdb.RingStore.Rotate.{insert_by_generation, sort_by_generation}
use tfdb.RingStore.Opener.Recover.{is_seen, drop_indexes, trim_history}

abbrev pub gens : List PartitionState → List ℕ
gens [] = []
gens (p ∷ ps) = p.header.generation ∷ gens ps

abbrev pub Distinct : List ℕ → Type 0
Distinct [] = Unit {0}
Distinct (n ∷ ns) = (is_seen n ns ≡ false) × Distinct ns

abbrev pub AllAbove : ℕ → List ℕ → Type 0
AllAbove m [] = Unit {0}
AllAbove m (n ∷ ns) = (m < n) × AllAbove m ns

abbrev pub Ascending : List ℕ → Type 0
Ascending [] = Unit {0}
Ascending (n ∷ ns) = AllAbove n ns × Ascending ns

abbrev pub AllPositive : List ℕ → Type 0
AllPositive = AllAbove 0

weaken-AllAbove : {m k : ℕ} (ns : List ℕ) → m < k → AllAbove k ns → AllAbove m ns
weaken-AllAbove [] h a = tt
weaken-AllAbove (n ∷ ns) h (b, a) = (omega arith, weaken-AllAbove ns h a)

pub seen-append :
    (x : ℕ) (ns : List ℕ) (g : ℕ) → is_seen x (ns ++ g ∷ []) ≡ (is_seen x ns || g == x)
unfolding is_seen
seen-append x [] g = elim (Bool-cases (g == x)) [ inl e ↦ rw e refl | inr e ↦ rw e refl ]
seen-append x (n ∷ ns) g = elim (Bool-cases (n == x)) [
  | inl e ↦ rw e refl
  | inr e ↦ rw e (seen-append x ns g)
]

flip_test : (a b : ℕ) → (a == b ≡ false) → (b == a) ≡ false
flip_test a b h = ground arith

pub append-Distinct :
    (ns : List ℕ) (g : ℕ) → Distinct ns → (is_seen g ns ≡ false) → Distinct (ns ++ g ∷ [])
unfolding is_seen
append-Distinct [] g d h = (refl, tt)
append-Distinct (n ∷ ns) g (a, d) h =
    let (other, rest) = neither h in
    let apart : is_seen n (ns ++ g ∷ []) ≡ false =
      seen-append n ns g ∙ rw (a, flip_test n g other) refl in
    (apart, append-Distinct ns g d rest)

pub append-AllAbove :
    {m : ℕ} (ns : List ℕ) (g : ℕ) → AllAbove m ns → m < g → AllAbove m (ns ++ g ∷ [])
append-AllAbove [] g a h = (h, tt)
append-AllAbove (n ∷ ns) g (b, a) h = (b, append-AllAbove ns g a h)

pub gens-append :
    (ps : List PartitionState) (p : PartitionState)
    → gens (ps ++ p ∷ []) ≡ gens ps ++ p.header.generation ∷ []
gens-append [] p = refl
gens-append (q ∷ ps) p = ap (λ ns. q.header.generation ∷ ns) (gens-append ps p)

pub gens-drop : (n : ℕ) (ps : List PartitionState) → gens (drop_indexes n ps) ≡ gens ps
unfolding drop_indexes
gens-drop n [] = refl
gens-drop n (p ∷ ps) = elim (Bool-cases (not p.sealed && not (p.header.generation == n))) [
  | inl e ↦ rw e (ap (λ ns. p.header.generation ∷ ns) (gens-drop n ps))
  | inr e ↦ rw e (ap (λ ns. p.header.generation ∷ ns) (gens-drop n ps))
]

pub gens-trim : (ps : List PartitionState) → gens (trim_history ps) ≡ gens ps
unfolding trim_history
gens-trim [] = refl
gens-trim (p ∷ []) = refl
gens-trim (p ∷ q ∷ ps) = elim (Bool-cases p.sealed) [
  | inl e ↦ rw e (ap (λ ns. p.header.generation ∷ ns) (gens-trim (q ∷ ps)))
  | inr e ↦ rw e (ap (λ ns. p.header.generation ∷ ns) (gens-trim (q ∷ ps)))
]

swap_tests : (a b c : Bool) → (a || (b || c)) ≡ (b || (a || c))
swap_tests true true c = refl
swap_tests true false c = refl
swap_tests false b c = refl

seen-insert :
    (x : ℕ) (p : PartitionState) (ps : List PartitionState)
    → is_seen x (gens (insert_by_generation p ps)) ≡ is_seen x (gens (p ∷ ps))
unfolding is_seen insert_by_generation
seen-insert x p [] = refl
seen-insert x p (q ∷ qs) = elim (Bool-cases (ltb q.header.generation p.header.generation)) [
  | inr e ↦ rw e refl
  | inl e ↦ rw e (
      ap (λ t. q.header.generation == x || t) (seen-insert x p qs)
      ∙ swap_tests (q.header.generation == x) (p.header.generation == x) (is_seen x (gens qs)))
]

seen-sort :
    (x : ℕ) (ps : List PartitionState)
    → is_seen x (gens (sort_by_generation ps)) ≡ is_seen x (gens ps)
unfolding is_seen sort_by_generation
seen-sort x [] = refl
seen-sort x (p ∷ ps) =
    seen-insert x p (sort_by_generation ps)
    ∙ ap (λ t. p.header.generation == x || t) (seen-sort x ps)

insert-AllAbove :
    (m : ℕ) (p : PartitionState) (ps : List PartitionState)
    → m < p.header.generation
    → AllAbove m (gens ps)
    → AllAbove m (gens (insert_by_generation p ps))
unfolding insert_by_generation
insert-AllAbove m p [] h a = (h, tt)
insert-AllAbove m p (q ∷ qs) h (b, a) =
    elim (Bool-cases (ltb q.header.generation p.header.generation)) [
      | inl e ↦ rw e (b, insert-AllAbove m p qs h a)
      | inr e ↦ rw e (h, (b, a))
    ]

between : {a b : ℕ} → (ltb b a ≡ false) → (b == a ≡ false) → a < b
between h k = ground arith

insert-Ascending :
    (p : PartitionState) (ps : List PartitionState)
    → (is_seen p.header.generation (gens ps) ≡ false)
    → Ascending (gens ps)
    → Ascending (gens (insert_by_generation p ps))
unfolding insert_by_generation is_seen
insert-Ascending p [] h a = (tt, tt)
insert-Ascending p (q ∷ qs) h (b, a) =
    let (other, rest) = neither h in
    elim (Bool-cases (ltb q.header.generation p.header.generation)) [
      | inl e ↦
          rw e (
            insert-AllAbove q.header.generation p qs (ltb→lt _ _ e) b,
            insert-Ascending p qs rest a,
          )
      | inr e ↦
          let before = between e other in
          rw e ((before, weaken-AllAbove (gens qs) before b), (b, a))
    ]

pub sort-Ascending :
    (ps : List PartitionState) → Distinct (gens ps) → Ascending (gens (sort_by_generation ps))
unfolding sort_by_generation
sort-Ascending [] d = tt
sort-Ascending (p ∷ ps) (h, d) =
    insert-Ascending p (sort_by_generation ps) (seen-sort p.header.generation ps ∙ h)
      (sort-Ascending ps d)

pub sort-AllAbove :
    (m : ℕ) (ps : List PartitionState)
    → AllAbove m (gens ps)
    → AllAbove m (gens (sort_by_generation ps))
unfolding sort_by_generation
sort-AllAbove m [] a = tt
sort-AllAbove m (p ∷ ps) (b, a) =
    insert-AllAbove m p (sort_by_generation ps) b (sort-AllAbove m ps a)

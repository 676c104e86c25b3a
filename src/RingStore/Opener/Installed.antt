-- ===== src/RingStore/Opener/Installed.antt =====
-- A partition that `create_partition` has installed is the active one.
use tfdb.Prelude.{
  ℕ, ◌≡◌, refl, ◌∙◌, inl, inr, Bool, true, false, ◌&&◌, some, List, [], ◌∷◌, ◌++◌, arith, ltb, ◌==◌,
  Bool-cases,
}
use tfdb.Status.{Status, ok, error}
use tfdb.Format.Partition.{PartitionHeader, PartitionOptions}
use tfdb.RingStore.State.{Device, Impl, PartitionState, is_at, find_at, active}
use tfdb.RingStore.Outcome.{Outcome, returned, stopped, chain-Outcome, if-Outcome}
use tfdb.RingStore.Rotate.{
  insert_by_generation, sort_by_generation, without_slot, new_partition, install_partition,
  create_partition, domain_changes,
}

find-insert_other :
    (g slot : ℕ) (p : PartitionState) (qs : List PartitionState)
    → (is_at g slot p ≡ false)
    → find_at g slot (insert_by_generation p qs) ≡ find_at g slot qs
unfolding find_at insert_by_generation
find-insert_other g slot p [] h = rw h refl
find-insert_other g slot p (q ∷ qs) h =
    elim (Bool-cases (ltb q.header.generation p.header.generation)) [
      | inr e ↦ rw (e, h) refl
      | inl e ↦ elim (Bool-cases (is_at g slot q)) [
        | inl here ↦ rw (e, here) refl
        | inr there ↦ rw (e, there) (find-insert_other g slot p qs h)
      ]
    ]

elsewhere : (t : Bool) (a b : ℕ) → (a == b ≡ false) → (t && a == b) ≡ false
elsewhere true a b h = h
elsewhere false a b h = refl

itself : (n : ℕ) → (n == n) ≡ true
itself n = ground arith

find-installed :
    (new_ : PartitionState) (ps : List PartitionState)
    → find_at new_.header.generation new_.header.slot
        (sort_by_generation (without_slot new_.header.slot ps ++ new_ ∷ []))
      ≡ some new_
unfolding find_at sort_by_generation without_slot insert_by_generation
find-installed new_ [] = rw (itself new_.header.generation, itself new_.header.slot) refl
find-installed new_ (p ∷ ps) = elim (Bool-cases (p.header.slot == new_.header.slot)) [
  | inl e ↦ rw e (find-installed new_ ps)
  | inr e ↦ rw e (
      find-insert_other new_.header.generation new_.header.slot p
        (sort_by_generation (without_slot new_.header.slot ps ++ new_ ∷ []))
        (elsewhere (p.header.generation == new_.header.generation) p.header.slot new_.header.slot e)
      ∙ find-installed new_ ps)
]

-- The active partition, which takes more blocks.
abbrev pub HasActive : {S : Type 0} → Impl S → Type 0
HasActive s = (p : PartitionState) × (active s ≡ some p) × (p.sealed ≡ false)

module _ {S : Type 0} (dev : Device S) where
  installed-HasActive :
      (header : PartitionHeader) (changed : Bool) (s : Impl S)
      → HasActive (install_partition dev header changed s)
  unfolding install_partition
  installed-HasActive header changed s =
      (new_partition header, find-installed (new_partition header) s.partitions, refl)

  any-Outcome : (m : Status × Impl S) → Outcome {A = Impl S} (λ _. Unit {0}) (λ _ _. Unit {0}) m
  any-Outcome (ok, s) = returned tt
  any-Outcome (error c, s) = stopped tt

  pub create_partition-HasActive :
      (slot generation : ℕ) (options : PartitionOptions) (s : Impl S)
      → Outcome HasActive (λ _ _. Unit {0}) (create_partition dev slot generation options s)
  unfolding create_partition
  create_partition-HasActive slot generation options s =
      if-Outcome (generation == 0) (λ _. stopped tt)
        (λ _.
          chain-Outcome (any-Outcome _)
            (λ a _. returned (installed-HasActive _ (domain_changes (active s) options) a)))

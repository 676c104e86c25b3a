-- ===== src/RingStore/Opener/Recovered.antt =====
-- What `open` has found when it returns a store.
use tfdb.Prelude.{
  ℕ, zero, suc, ◌+◌, ◌<◌, ◌≤◌, ◌≡◌, refl, sym, ap, ◌∙◌, ◌⊎◌, inl, inr, Bool, true, false, ◌&&◌,
  ◌||◌, Option, none, some, List, [], ◌∷◌, ◌++◌, arith, ◌==◌, if◌then◌else◌, Bool-cases, nonzero,
}
use tfdb.Status.{ErrorCode, ok, Result, returns, fails, reject_if}
use tfdb.Format.Volume.{VolumeHeader}
use tfdb.Format.Partition.{PartitionHeader}
use tfdb.Format.Footer.{PartitionFooter}
use tfdb.Format.Index.{IndexEntry}
use tfdb.Codec.{CompressionCodec}
use tfdb.RingStore.State.{Device, Impl, PartitionState, find_at, active, validate_partition_options}
use tfdb.RingStore.Consistent.{IsDurable}
use tfdb.RingStore.Rotate.{sort_by_generation}
use tfdb.RingStore.Reader.Reads.{◌>>=◌, ◌>>◌, give, lift, result_of}
use tfdb.RingStore.Reader.Ends.{Ends, well, after-Ends, reject-Ends, then-Ends}
use tfdb.RingStore.Reader.Slots.{read_partition_header, read_footer}
use tfdb.RingStore.Reader.Scan.{Scanned, scan_partition}
use tfdb.RingStore.Reader.Index.{widen, widen_all, summarize}
use tfdb.RingStore.Reader.Block.{is_operational}
use tfdb.RingStore.Opener.Headers.{attempt}
use tfdb.RingStore.Opener.Damage.{assess_slot}
use tfdb.RingStore.Opener.Strict.{decode_all, verify_sealed}
use tfdb.RingStore.Opener.Recover.{
  Recovery, nothing_found, is_seen, sealed_state, newest_seen, add_partition, add_damaged,
  scanned_state, recover_state, recover_slot, recover_slots, trim_history, arrange, last_partition,
}
use tfdb.RingStore.Opener.Assemble.{OpenOptions, new_store, adopt, recover_store}
use tfdb.RingStore.Opener.Order.{
  gens, Distinct, AllAbove, Ascending, seen-append, append-Distinct, append-AllAbove, gens-append,
  gens-drop, gens-trim, sort-Ascending, sort-AllAbove,
}

-- The set of the generations is that of the partitions, which are distinct and not zero.
record Sound (r : Recovery) : Type 0 where
  agrees : (x : ℕ) → is_seen x r.generations ≡ is_seen x (gens r.recovered)
  distinct : Distinct (gens r.recovered)
  positive : AllAbove 0 (gens r.recovered)

gens-added :
    (p : PartitionState) (r : Recovery)
    → gens (add_partition p r).recovered ≡ gens r.recovered ++ p.header.generation ∷ []
unfolding add_partition
gens-added p r =
    gens-drop (newest_seen (r.recovered ++ p ∷ []) 0) (r.recovered ++ p ∷ [])
    ∙ gens-append r.recovered p

or_swap : (a b : Bool) → (a || b) ≡ (b || a)
or_swap true true = refl
or_swap true false = refl
or_swap false true = refl
or_swap false false = refl

added-Sound :
    (p : PartitionState) (g : ℕ) (r : Recovery)
    → Sound r
    → (p.header.generation ≡ g)
    → (is_seen g r.generations ≡ false)
    → 1 ≤ g
    → Sound (add_partition p (record r { generations = g ∷ r.generations }))
unfolding is_seen add_partition
added-Sound p g r h e new_ one =
    let r' = record r { generations = g ∷ r.generations } in
    let all : gens (add_partition p r').recovered ≡ gens r.recovered ++ g ∷ [] =
      gens-added p r' ∙ ap (λ n. gens r.recovered ++ n ∷ []) e in
    record {
      agrees = λ x.
          ap (λ t. g == x || t) (h.agrees x)
          ∙ or_swap (g == x) (is_seen x (gens r.recovered))
          ∙ sym (seen-append x (gens r.recovered) g)
          ∙ ap (is_seen x) (sym all);
      distinct = rw all (append-Distinct (gens r.recovered) g h.distinct (sym (h.agrees g) ∙ new_));
      positive = rw all (append-AllAbove (gens r.recovered) g h.positive (omega (arith, one)));
    }

damaged-Sound : (t : Bool) (slot : ℕ) (r : Recovery) → Sound r → Sound (add_damaged t slot r)
damaged-Sound true slot r h = record {
  agrees = h.agrees;
  distinct = h.distinct;
  positive = h.positive;
}
damaged-Sound false slot r h = h

header-widen_all : (es : List IndexEntry) (p : PartitionState) → (widen_all es p).header ≡ p.header
unfolding widen_all widen
header-widen_all [] p = refl
header-widen_all (e ∷ es) p = header-widen_all es (widen e p)

header-scanned : (h : PartitionHeader) (x : Scanned) → (scanned_state h x).header ≡ h
unfolding scanned_state summarize
header-scanned h x = header-widen_all x.entries _

module _ {S : Type 0} (dev : Device S) (v : VolumeHeader) (codecs : List CompressionCodec)
    (verify : Bool) where
  recover_state-Ends :
      (h : PartitionHeader) (footer : Result PartitionFooter) (s : S)
      → Ends (λ p. p.header ≡ h) (recover_state dev v codecs verify h footer s)
  unfolding recover_state ◌>>=◌ ◌>>◌ give lift
  recover_state-Ends h (returns f) s =
      let p = sealed_state h f in
      then-Ends ((if verify then verify_sealed dev v codecs p else give tt) s)
        (λ u s1. well {a = p} refl)
  recover_state-Ends h (fails code) s =
      then-Ends (reject_if (is_operational code) code, s)
        (λ u s1. then-Ends (scan_partition dev v h 0 s1) (λ scanned s2.
          let p = scanned_state h scanned in
          then-Ends ((if verify then decode_all dev v codecs p p.active_index else give tt) s2)
            (λ u' s3. well {a = p} (header-scanned h scanned))))

  recover_slot-Ends :
      (slot : ℕ) (r : Recovery) (header : Result PartitionHeader) (s : S)
      → Sound r
      → Ends Sound (recover_slot dev v codecs verify slot r header s)
  unfolding recover_slot ◌>>=◌ ◌>>◌ give lift
  recover_slot-Ends slot r (fails code) s h =
      then-Ends (assess_slot dev v verify slot code s)
        (λ damaged s1. well (damaged-Sound damaged slot r h))
  recover_slot-Ends slot r (returns header) s h =
      after-Ends (reject-Ends (header.generation == 0) ErrorCode.corrupt) (λ u s1 positive.
        after-Ends (reject-Ends (is_seen header.generation r.generations) ErrorCode.corrupt)
          (λ u' s2 new_. then-Ends (attempt (read_footer dev v header) s2) (λ footer s3.
            after-Ends (recover_state-Ends header footer s3) (λ p s4 same_header. well (
              added-Sound p header.generation r h
                (ap (λ x. PartitionHeader.generation x) same_header) new_ (nonzero positive))))))

  recover_slots-Ends :
      (left slot : ℕ) (r : Recovery) (s : S)
      → Sound r
      → Ends Sound (recover_slots dev v codecs verify left slot r s)
  unfolding recover_slots ◌>>=◌ give
  recover_slots-Ends zero slot r s h = well h
  recover_slots-Ends (suc left) slot r s h =
      then-Ends (attempt (read_partition_header dev v codecs slot) s) (λ header s1.
        after-Ends (recover_slot-Ends slot r header s1 h)
          (λ r' s2 h'. recover_slots-Ends left (slot + 1) r' s2 h'))

-- Every partition but the last is sealed, or keeps no index.
abbrev pub IsTrimmed : List PartitionState → Type 0
IsTrimmed [] = Unit {0}
IsTrimmed (p ∷ []) = Unit {0}
IsTrimmed (p ∷ q ∷ ps) = ((p.sealed ≡ true) ⊎ (p.active_index ≡ [])) × IsTrimmed (q ∷ ps)

trim_history-IsTrimmed : (ps : List PartitionState) → IsTrimmed (trim_history ps)
unfolding trim_history
trim_history-IsTrimmed [] = tt
trim_history-IsTrimmed (p ∷ []) = tt
trim_history-IsTrimmed (p ∷ q ∷ []) = elim (Bool-cases p.sealed) [
  | inl e ↦ rw e (inl refl, tt)
  | inr e ↦ rw e (inr refl, tt)
]
trim_history-IsTrimmed (p ∷ q ∷ r ∷ ps) = elim (Bool-cases p.sealed) [
  | inl e ↦ rw e (inl refl, trim_history-IsTrimmed (q ∷ r ∷ ps))
  | inr e ↦ rw e (inr refl, trim_history-IsTrimmed (q ∷ r ∷ ps))
]

last_above :
    (m : ℕ) (p : PartitionState) (ps : List PartitionState)
    → AllAbove m (gens (p ∷ ps))
    → m < (last_partition p ps).header.generation
unfolding last_partition
last_above m p [] (h, a) = h
last_above m p (q ∷ ps) (h, a) = last_above m q ps a

another : (m n : ℕ) (t : Bool) → m < n → (m == n && t) ≡ false
another m n t h = let e : (m == n) ≡ false = ground arith in rw e refl

self : (n : ℕ) → (n == n) ≡ true
self n = ground arith

-- The last of ascending generations is found at its own generation and slot.
last-found :
    (p : PartitionState) (ps : List PartitionState)
    → Ascending (gens (p ∷ ps))
    → find_at (last_partition p ps).header.generation (last_partition p ps).header.slot (p ∷ ps)
      ≡ some (last_partition p ps)
unfolding last_partition find_at
last-found p [] a = rw (self p.header.generation, self p.header.slot) refl
last-found p (q ∷ ps) (above, a) =
    let l = last_partition q ps in
    let e =
      another p.header.generation l.header.generation (p.header.slot == l.header.slot)
        (last_above p.header.generation q ps above) in
    rw e (last-found q ps a)

-- The active partition is the last one.
abbrev pub IsNewest : Option PartitionState → List PartitionState → Type 0
IsNewest found [] = found ≡ none
IsNewest found (p ∷ ps) = found ≡ some (last_partition p ps)

pub record IsRecovered {S : Type 0} (s : Impl S) : Type 0 where
  pub ascending : Ascending (gens s.partitions)
  pub above_zero : AllAbove 0 (gens s.partitions)
  pub trimmed : IsTrimmed s.partitions
  pub newest : IsNewest (active s) s.partitions

adopted-IsRecovered :
    {S : Type 0} (ps : List PartitionState) (damaged : List ℕ) (s : Impl S)
    → Ascending (gens ps)
    → AllAbove 0 (gens ps)
    → IsTrimmed ps
    → IsRecovered (adopt ps damaged s)
unfolding adopt find_at
adopted-IsRecovered [] damaged s a z t = record {
  ascending = a;
  above_zero = z;
  trimmed = t;
  newest = refl;
}
adopted-IsRecovered (p ∷ ps) damaged s a z t = record {
  ascending = a;
  above_zero = z;
  trimmed = t;
  newest = last-found p ps a;
}

arranged-IsRecovered :
    {S : Type 0} (r : Recovery) (s : Impl S)
    → Sound r
    → IsRecovered (adopt (arrange r.recovered) r.damaged_slots s)
unfolding arrange
arranged-IsRecovered r s h =
    let sorted = sort_by_generation r.recovered in
    let same_gens = gens-trim sorted in
    adopted-IsRecovered (trim_history sorted) r.damaged_slots s
      (rw same_gens (sort-Ascending r.recovered h.distinct))
      (rw same_gens (sort-AllAbove 0 r.recovered h.positive)) (trim_history-IsTrimmed sorted)

nothing-Sound : Sound nothing_found
unfolding is_seen
nothing-Sound = record { agrees = λ x. refl; distinct = tt; positive = tt }

adopted-IsDurable :
    {S : Type 0} (ps : List PartitionState) (damaged : List ℕ) (s : Impl S)
    → IsDurable 0 s
    → IsDurable 0 (adopt ps damaged s)
unfolding adopt
adopted-IsDurable [] damaged s h = h
adopted-IsDurable (p ∷ ps) damaged s h = h

writable-adopted :
    {S : Type 0} (ps : List PartitionState) (damaged : List ℕ) (s : Impl S)
    → (adopt ps damaged s).writable ≡ s.writable
unfolding adopt
writable-adopted [] damaged s = refl
writable-adopted (p ∷ ps) damaged s = refl

new_store-IsDurable :
    {S : Type 0} (v : VolumeHeader) (o : OpenOptions) (writer_id : ℕ × ℕ) (s : S)
    → IsDurable 0 (new_store v o writer_id s)
new_store-IsDurable v o writer_id s = (
  (
    (
      (refl, λ _. (refl, refl)),
      (λ no. absurd cc),
      (refl, refl, refl, refl, refl, refl, refl, refl, refl),
    ),
    refl,
    refl,
  ),
  refl,
)

-- The store before the partition of a writer is made.
abbrev pub IsOpening : {S : Type 0} → OpenOptions → Impl S → Type 0
IsOpening o s = IsRecovered s × IsDurable 0 s × (s.writable ≡ o.open_writable)

module _ {S : Type 0} (dev : Device S) (v : VolumeHeader) (o : OpenOptions)
    (writer_id : ℕ × ℕ) where
  pub recover_store-Ends : (s : S) → Ends (IsOpening o) (recover_store dev v o writer_id s)
  unfolding recover_store ◌>>=◌ ◌>>◌ lift
  recover_store-Ends s =
      then-Ends
        (
          result_of (
              if o.open_writable
              then validate_partition_options o.open_codecs o.next_partition
              else ok),
          s,
        )
        (λ u s1.
          after-Ends
            (recover_slots-Ends dev v o.open_codecs o.verify_payloads_on_open v.partition_count 0
              nothing_found s1 nothing-Sound)
            (λ r s2 h.
              let fresh = new_store v o writer_id s2 in
              let ps = arrange r.recovered in
              well (
                arranged-IsRecovered r fresh h,
                adopted-IsDurable ps r.damaged_slots fresh (new_store-IsDurable v o writer_id s2),
                writable-adopted ps r.damaged_slots fresh,
              )))

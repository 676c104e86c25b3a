-- ===== src/RingStore/Formatted.antt =====
-- What `format` writes, and the test of `open`.
use tfdb.Prelude.{
  ℕ, zero, suc, ◌+◌, ◌-◌, ◌%◌, ◌^◌, ◌≤◌, ◌<◌, ◌≡◌, refl, inl, inr, Bool, true, false, not, ◌&&◌,
  ◌||◌, Option, none, some, List, arith, ltb, leb, ◌==◌, Bool-cases, neither, not_below,
}
use tfdb.Status.{Status, ok, error, Result, returns, fails}
use tfdb.Format.{
  volume_prefix_size, partition_header_region_size, partition_footer_region_size,
  index_entry_encoded_size,
}
use tfdb.Format.Volume.{VolumeHeader, encode_volume_header}
use tfdb.RingStore.State.{Device, sub64, ◌>=>◌}
use tfdb.RingStore.Geometry.{
  is_power_of_two, fixed_size, bad_sizes, exceeds_backend, block_too_large,
  validate_volume_geometry,
}
use tfdb.RingStore.Formatter.{
  VolumeOptions, Draw, bad_geometry, count64, bad_count, block_cannot_fit, volume_of, is_zero_id,
  id_or, random_nonzero_id, choose_id, write_headers, format_with, format,
}

at_least : {a b : ℕ} → b ≤ a → ltb a b ≡ false
at_least h = ground arith

above : {a b : ℕ} → b < a → leb a b ≡ false
above h = ground arith

-- The widths of the fields of `VolumeOptions` and of a backend's size.
pub record Widths (o : VolumeOptions) (size : ℕ) : Type 0 where
  pub size_fits : size < 2 ^ 64
  pub partition_fits : o.partition_size < 2 ^ 64
  pub index_fits : o.index_region_size < 2 ^ 32
  pub quantum_fits : o.persistence_quantum < 2 ^ 32

positive_power : (q : ℕ) → (not (is_power_of_two q) ≡ false) → 1 ≤ q
unfolding is_power_of_two
positive_power q h = ground arith

-- The space for blocks, as the two functions compute it.
space : (p i : ℕ) → fixed_size i ≤ p → p < 2 ^ 64 → sub64 p (fixed_size i) ≡ p - fixed_size i
space p i h k = omega (arith, h, k)

space_by_parts :
    (p i : ℕ)
    → fixed_size i ≤ p
    → p < 2 ^ 64
    → sub64 (sub64 (sub64 p partition_header_region_size) partition_footer_region_size) i
      ≡ p - fixed_size i
space_by_parts p i h k = omega (arith, h, k)

narrow : (n : ℕ) → n ≤ 2 ^ 32 - 1 → n % 2 ^ 32 ≡ n
narrow n h = omega (arith, h)

-- What the tests of `format` leave, apart from the size of a block.
record Accepted (o : VolumeOptions) (size : ℕ) : Type 0 where
  prefix : ltb size volume_prefix_size ≡ false
  partition : (o.partition_size == 0) ≡ false
  power : not (is_power_of_two o.persistence_quantum) ≡ false
  quantum : ltb partition_header_region_size o.persistence_quantum ≡ false
  payload : (o.max_block_payload == 0) ≡ false
  index : ltb o.index_region_size index_entry_encoded_size ≡ false
  prefix_quanta : not (volume_prefix_size % o.persistence_quantum == 0) ≡ false
  header_quanta : not (partition_header_region_size % o.persistence_quantum == 0) ≡ false
  partition_quanta : not (o.partition_size % o.persistence_quantum == 0) ≡ false
  index_quanta : not (o.index_region_size % o.persistence_quantum == 0) ≡ false
  room : fixed_size o.index_region_size + o.persistence_quantum ≤ o.partition_size

tests-Accepted : (o : VolumeOptions) (size : ℕ) → (bad_geometry o size ≡ false) → Accepted o size
tests-Accepted o size h0 =
    let (h1, room) = neither h0 in
    let (h2, index_quanta) = neither h1 in
    let (h3, partition_quanta) = neither h2 in
    let (h4, header_quanta) = neither h3 in
    let (h5, prefix_quanta) = neither h4 in
    let (h6, index) = neither h5 in
    let (h7, payload) = neither h6 in
    let (h8, quantum) = neither h7 in
    let (h9, power) = neither h8 in
    let (prefix, partition) = neither h9 in
    record {
      prefix = prefix;
      partition = partition;
      power = power;
      quantum = quantum;
      payload = payload;
      index = index;
      prefix_quanta = prefix_quanta;
      header_quanta = header_quanta;
      partition_quanta = partition_quanta;
      index_quanta = index_quanta;
      room = not_below room;
    }

module _ (o : VolumeOptions) (size : ℕ) (w : Widths o size) (a : Accepted o size) (id : ℕ × ℕ) where
  roomy : fixed_size o.index_region_size ≤ o.partition_size
  roomy = omega (arith, a.room)

  sizes_pass : (bad_count (count64 o size) ≡ false) → bad_sizes (volume_of o size id) size ≡ false
  sizes_pass counted =
      let few : ltb (count64 o size) 2 ≡ false = (neither counted).0 in
      let many : ltb (2 ^ 32 - 1) (count64 o size) ≡ false = (neither counted).1 in
      let whole : ltb size size ≡ false = at_least (omega arith) in
      rw (
        narrow (count64 o size) (not_below many),
        whole,
        a.prefix,
        few,
        a.partition,
        a.power,
        a.quantum,
        a.payload,
        a.index,
        a.prefix_quanta,
        a.header_quanta,
        a.partition_quanta,
        a.index_quanta,
      )

  backend_holds :
      (bad_count (count64 o size) ≡ false) → exceeds_backend (volume_of o size id) ≡ false
  backend_holds counted =
      let few : ltb (count64 o size) 2 ≡ false = (neither counted).0 in
      let many : ltb (2 ^ 32 - 1) (count64 o size) ≡ false = (neither counted).1 in
      let q = positive_power o.persistence_quantum a.power in
      let large : leb o.partition_size (fixed_size o.index_region_size) ≡ false =
        above (omega (arith, a.room, q)) in
      let quantum_fits : ltb (o.partition_size - fixed_size o.index_region_size)
            o.persistence_quantum
          ≡ false =
        at_least (omega (arith, a.room)) in
      let count_fits : ltb (count64 o size) (count64 o size) ≡ false = at_least (omega arith) in
      rw (
        narrow (count64 o size) (not_below many),
        space o.partition_size o.index_region_size roomy w.partition_fits,
        large,
        quantum_fits,
        count_fits,
      )

  block_fits : (block_cannot_fit o ≡ false) → block_too_large (volume_of o size id) ≡ false
  block_fits fits =
      let fits' =
        rw (space_by_parts o.partition_size o.index_region_size roomy w.partition_fits) at fits in
      rw (space o.partition_size o.index_region_size roomy w.partition_fits) fits'

geometry-valid :
    (o : VolumeOptions) (size : ℕ) (id : ℕ × ℕ)
    → Widths o size
    → (bad_geometry o size ≡ false)
    → (bad_count (count64 o size) ≡ false)
    → (block_cannot_fit o ≡ false)
    → ((id.0 == 0 && id.1 == 0) ≡ false)
    → validate_volume_geometry (volume_of o size id) size ≡ returns tt
unfolding validate_volume_geometry
geometry-valid o size (high, low) w sane counted fits some_id =
    let a = tests-Accepted o size sane in
    rw
      (
        some_id,
        sizes_pass o size w a (high, low) counted,
        backend_holds o size w a (high, low) counted,
        block_fits o size w a (high, low) fits,
      )
      refl

-- The two steps of a chain that returned ok.
chained :
    {S : Type 0} (r : Status × S) (f : S → Status × S) (s' : S)
    → (r >=> f ≡ (ok, s'))
    → (s1 : S) × (r ≡ (ok, s1)) × (f s1 ≡ (ok, s'))
unfolding ◌>=>◌
chained (ok, s1) f s' e = (s1, refl, e)
chained (error c, s1) f s' e = absurd cc

module _ {S : Type 0} (dev : Device S) (getrandom : ℕ → S → Draw × S) where
  abbrev IsNonzero : Option (Result (ℕ × ℕ) × S) → Type 0
  IsNonzero none = Unit {0}
  IsNonzero (some (fails code, s)) = Unit {0}
  IsNonzero (some (returns id, s)) = (id.0 == 0 && id.1 == 0) ≡ false

  id_or-IsNonzero :
      (r : Option (Result (List ℕ) × S)) (again : S → Option (Result (ℕ × ℕ) × S))
      → ((s : S) → IsNonzero (again s))
      → IsNonzero (id_or dev getrandom r again)
  id_or-IsNonzero none again h = tt
  id_or-IsNonzero (some (fails code, s)) again h = tt
  id_or-IsNonzero (some (returns bs, s)) again h = elim (Bool-cases (is_zero_id dev getrandom bs)) [
    | inl zeros ↦ rw zeros (h s)
    | inr some_bits ↦ rw some_bits some_bits
  ]

  random_nonzero_id-IsNonzero :
      (rounds : ℕ) (s : S) → IsNonzero (random_nonzero_id dev getrandom rounds s)
  unfolding random_nonzero_id
  random_nonzero_id-IsNonzero zero s = tt
  random_nonzero_id-IsNonzero (suc rounds) s =
      id_or-IsNonzero _ _ (λ s'. random_nonzero_id-IsNonzero rounds s')

  choose_id-IsNonzero :
      (rounds : ℕ) (o : VolumeOptions) (s : S) → IsNonzero (choose_id dev getrandom rounds o s)
  unfolding choose_id
  choose_id-IsNonzero rounds o s =
      elim (Bool-cases (not (o.volume_id_high == 0) || not (o.volume_id_low == 0))) [
        | inr drawn ↦ rw drawn (random_nonzero_id-IsNonzero rounds s)
        | inl explicit ↦ elim (Bool-cases o.allow_explicit_volume_id_for_testing) [
          | inl allowed ↦
              rw (explicit, allowed)
                (some_bit (o.volume_id_high == 0) (o.volume_id_low == 0) explicit)
          | inr refused ↦ rw (explicit, refused) tt
        ]
      ]
    where
      some_bit : (a b : Bool) → (not a || not b ≡ true) → (a && b) ≡ false
      some_bit true true h = absurd cc
      some_bit true false h = refl
      some_bit false b h = refl

  -- The bytes were written at the start and at 4096, and then flushed, and each step returned ok.
  abbrev pub HasTwoCopies : List ℕ → S → Type 0
  HasTwoCopies bs s' =
      (s1 s2 s3 : S) × (dev.write 0 bs s1 ≡ (ok, s2))
      × (dev.write 4096 bs s2 ≡ (ok, s3))
      × (dev.flush s3 ≡ (ok, s'))

  -- What a format that returned ok has done.
  abbrev pub HasFormatted : VolumeOptions → ℕ → S → Type 0
  HasFormatted o size s' =
      (v : VolumeHeader) × HasTwoCopies (encode_volume_header v) s'
      × (v.volume_size ≡ size)
      × (v.partition_size ≡ o.partition_size)
      × (v.index_region_size ≡ o.index_region_size)
      × (v.max_block_payload ≡ o.max_block_payload)
      × (v.persistence_quantum ≡ o.persistence_quantum)
      × (validate_volume_geometry v size ≡ returns tt)

  write_headers-HasTwoCopies :
      (bs : List ℕ) (s s' : S) → (write_headers dev getrandom bs s ≡ (ok, s')) → HasTwoCopies bs s'
  unfolding write_headers
  write_headers-HasTwoCopies bs s s' e =
      let (s3, e', flushed) = chained (dev.write 0 bs s >=> dev.write 4096 bs) dev.flush s' e in
      let (s2, first, second) = chained (dev.write 0 bs s) (dev.write 4096 bs) s3 e' in
      (s, s2, s3, first, second, flushed)

  format_with-HasFormatted :
      (o : VolumeOptions) (size : ℕ) (r : Option (Result (ℕ × ℕ) × S)) (s' : S)
      → ((id : ℕ × ℕ)
          → ((id.0 == 0 && id.1 == 0) ≡ false)
          → validate_volume_geometry (volume_of o size id) size ≡ returns tt)
      → IsNonzero r
      → (format_with dev getrandom o size r ≡ some (ok, s'))
      → HasFormatted o size s'
  format_with-HasFormatted o size none s' valid n e = absurd cc
  format_with-HasFormatted o size (some (fails code, s1)) s' valid n e = absurd cc
  format_with-HasFormatted o size (some (returns (high, low), s1)) s' valid n e = (
    volume_of o size (high, low),
    write_headers-HasTwoCopies (encode_volume_header (volume_of o size (high, low))) s1 s' cc,
    refl,
    refl,
    refl,
    refl,
    refl,
    valid (high, low) n,
  )

  -- If `format` returns ok, then a write of one header at the start, a write of it at 4096 and a flush
  -- have returned ok one after the other at its end. The header has the backend's
  -- size and the sizes asked for, and `validate_volume_geometry`, the test of `open`, accepts it, its
  -- identity included.
  pub format-HasFormatted :
      (rounds : ℕ) (o : VolumeOptions) (s s' : S)
      → Widths o (dev.size s)
      → (format dev getrandom rounds o s ≡ some (ok, s'))
      → HasFormatted o (dev.size s) s'
  unfolding format
  format-HasFormatted rounds o s s' w e = elim (Bool-cases (not (dev.is_writable s))) [
    | inl read_only ↦ (let wrong = rw read_only at e in absurd cc)
    | inr writable ↦ elim (Bool-cases (bad_geometry o (dev.size s))) [
      | inl bad ↦ (let wrong = rw (writable, bad) at e in absurd cc)
      | inr sane ↦ elim (Bool-cases (bad_count (count64 o (dev.size s)))) [
        | inl count ↦ (let wrong = rw (writable, sane, count) at e in absurd cc)
        | inr counted ↦ elim (Bool-cases (block_cannot_fit o)) [
          | inl large ↦ (let wrong = rw (writable, sane, counted, large) at e in absurd cc)
          | inr fits ↦
              format_with-HasFormatted o (dev.size s) (choose_id dev getrandom rounds o s) s'
                (λ id some_id. geometry-valid o (dev.size s) id w sane counted fits some_id)
                (choose_id-IsNonzero rounds o s) (rw (writable, sane, counted, fits) at e)
        ]
      ]
    ]
  ]

-- ===== src/Storage/Memory/Refined.antt =====
-- The calls of a `MemoryStorage` against its medium.
use tfdb.Prelude.{
  ℕ, ◌≡◌, refl, sym, ap, ◌∙◌, inl, inr, not, Option, none, some, List, [], ◌∷◌, ◌==◌, leb,
  Bool-cases, length, arith, take, drop, take,
}
use tfdb.Status.{Status, ok, error, Result, returns, fails, ◌>>=◌}
use tfdb.Bytes.{ByteView, valid, contents, size as view_size}
use tfdb.Storage.Memory.{
  MemoryStorage, StorageOperation, HookPoint, WriteFragment, DirtyWrite, put_bytes, read_image,
  write_image, flush_image, read_counted, settle_image, faulted_flush, matching_fault,
  outside_image, write_counted, read_at, write_at, flush, count_read, count_write, count_flush,
}
use tfdb.Storage.Memory.Crash.{
  add_fault, clear_faults, crash_discard_volatile, crash_persist_all_dirty, crash_materialize,
  select_fragments, select_fragment, find_write, piece, bad_fragment, outside_durable, materialize,
  corrupt_durable, corrupt_volatile, reset_counters,
}
use tfdb.Storage.Memory.Medium.{
  Medium, medium, MemoryCall, call_read, call_write, call_flush, call_discard, call_persist,
  call_clear_faults, call_reset, call_materialize, call_add_fault, call_corrupt_durable,
  call_corrupt_volatile, answer, run_call, run_calls, put, settled_on, Among, IsPiece, ArePieces,
  Does, Trace, here, next,
}

abbrev SameImages : MemoryStorage → MemoryStorage → Type 0
SameImages m n =
    (n.volatile_ ≡ m.volatile_) × (n.durable ≡ m.durable) × (n.dirty_writes ≡ m.dirty_writes)

same_medium : (m n : MemoryStorage) → SameImages m n → medium n ≡ medium m
same_medium m n (v, d, w) = λ i. record { image = v i; durable_image = d i; pending = w i }

put_bytes-put :
    (call offset : ℕ) (bs : List ℕ) (m : MemoryStorage)
    → medium (put_bytes call offset bs m) ≡ put call offset bs (medium m)
put_bytes-put call offset bs m = elim (Bool-cases (length bs == 0)) [
  | inl nothing ↦ rw nothing refl
  | inr something ↦ rw something refl
]

write_image-put :
    (call offset : ℕ) (bs : List ℕ) (m : MemoryStorage)
    → medium (write_image call offset bs m).2
      ≡ put call offset (take (write_image call offset bs m).1 bs) (medium m)
unfolding write_image
write_image-put call offset bs m = elim (Bool-cases (not m.is_writable)) [
  | inl read_only ↦ rw read_only refl
  | inr writable ↦ elim (Bool-cases (outside_image offset (length bs) m.volatile_)) [
    | inl outside ↦ rw (writable, outside) refl
    | inr inside ↦ rw (writable, inside) (put_bytes-put call offset _ m)
  ]
]

read_image-Does :
    (call offset n : ℕ) (m : MemoryStorage)
    → (medium (read_image call offset n m).3 ≡ medium m)
      × ((read_image call offset n m).2
          ≡ take (read_image call offset n m).1 (drop offset m.volatile_))
unfolding read_image
read_image-Does call offset n m = elim (Bool-cases (outside_image offset n m.volatile_)) [
  | inl outside ↦ rw outside (refl, refl)
  | inr inside ↦ rw inside (refl, refl)
]

-- The same between the calls of the hook.
around :
    {a b c : Medium} (d : MemoryStorage) (status : Status)
    → (b ≡ a)
    → (medium d ≡ c)
    → Does call_flush (answer status 0 []) b c
    → Does call_flush (answer status 0 []) a (medium d)
around d ok before_ after_ h = after_ ∙ h ∙ ap (λ x. settled_on (Medium.image x)) before_
around d (error code) before_ after_ h = after_ ∙ h ∙ before_

flush_image-Settles :
    (call : ℕ) (m : MemoryStorage)
    → Does call_flush
        (answer (flush_image call m).0 0 [])
        (medium m)
        (medium (flush_image call m).1)
unfolding flush_image
flush_image-Settles call m =
    settled (faulted_flush (matching_fault StorageOperation.flush_ call m.faults))
  where
    settled :
        (status : Status)
        → Does call_flush (answer status 0 []) (medium m) (medium (settle_image status m))
    settled ok = refl
    settled (error code) = refl

-- The selection of the fragments.
find_write-Among :
    (call : ℕ) (ws : List DirtyWrite) (w : DirtyWrite)
    → (find_write call ws ≡ some w)
    → Among w ws × (w.call ≡ call)
unfolding find_write
find_write-Among call [] w e = absurd cc
find_write-Among call (v ∷ ws) w e = elim (Bool-cases (v.call == call)) [
  | inl found ↦
      (let e' = rw found at e in
        let same : v ≡ w = cc in (inl same, ap (λ x. DirtyWrite.call x) (sym same) ∙ ground arith))
  | inr other ↦
      (let (there, named) = find_write-Among call ws w (rw other at e) in (inr there, named))
]

selected-IsPiece :
    (f : WriteFragment) (image : List ℕ) (o : Option DirtyWrite) (ws : List DirtyWrite)
    (p : DirtyWrite)
    → ((w : DirtyWrite) → (o ≡ some w) → Among w ws × (w.call ≡ f.write_call))
    → (select_fragment f image o ≡ returns p)
    → IsPiece ws f p
selected-IsPiece f image none ws p found e = absurd cc
selected-IsPiece f image (some w) ws p found e = elim (Bool-cases (bad_fragment f w)) [
  | inl bad ↦ (let wrong = rw bad at e in absurd cc)
  | inr good ↦ elim (Bool-cases (outside_durable f w image)) [
    | inl outside ↦ (let wrong = rw (good, outside) at e in absurd cc)
    | inr inside ↦
        (let e' = rw (good, inside) at e in
          let same : piece f w ≡ p = cc in
          let (there, named) = found w refl in
          (
            w,
            there,
            named,
            ap (λ x. DirtyWrite.offset x) (sym same),
            ap (λ x. DirtyWrite.bytes x) (sym same),
          ))
  ]
]

select_fragments-ArePieces :
    (fs : List WriteFragment) (ws : List DirtyWrite) (image : List ℕ) (ps : List DirtyWrite)
    → (select_fragments fs ws image ≡ returns ps)
    → ArePieces ws fs ps
unfolding select_fragments
select_fragments-ArePieces [] ws image [] e = tt
select_fragments-ArePieces [] ws image (p ∷ ps) e = absurd cc
select_fragments-ArePieces (f ∷ fs) ws image ps e =
    first (select_fragment f image (find_write f.write_call ws)) (select_fragments fs ws image) ps
      (λ qs. select_fragments-ArePieces fs ws image qs) refl refl e
  where
    first :
        (r : Result DirtyWrite) (rest : Result (List DirtyWrite)) (ps : List DirtyWrite)
        → ((qs : List DirtyWrite)
            → (select_fragments fs ws image ≡ returns qs)
            → ArePieces ws fs qs)
        → (select_fragment f image (find_write f.write_call ws) ≡ r)
        → (select_fragments fs ws image ≡ rest)
        → ((do p ← r; ps ← rest; returns (p ∷ ps)) ≡ returns ps)
        → ArePieces ws (f ∷ fs) ps
    first (fails code) rest ps later one more e = absurd cc
    first (returns p) (fails code) ps later one more e = absurd cc
    first (returns p) (returns qs) [] later one more e = absurd cc
    first (returns p) (returns qs) (q ∷ ps) later one more e =
        let same : p ≡ q = cc in
        let others : qs ≡ ps = cc in
        (
          selected-IsPiece f image (find_write f.write_call ws) ws q
              (λ w. find_write-Among f.write_call ws w) (one ∙ ap (λ x. returns x) same),
          later ps (more ∙ ap (λ x. returns x) others),
        )

materialize-Does :
    (fragments : List WriteFragment) (r : Result (List DirtyWrite)) (m : MemoryStorage)
    → (select_fragments fragments m.dirty_writes m.durable ≡ r)
    → Does
        (call_materialize fragments)
        (answer (materialize r m).0 0 [])
        (medium m)
        (medium (materialize r m).1)
materialize-Does fragments (fails code) m e = refl
materialize-Does fragments (returns pieces) m e =
    (pieces, select_fragments-ArePieces fragments m.dirty_writes m.durable pieces e, refl)

corrupt_durable-Does :
    (offset xor_mask : ℕ) (m : MemoryStorage)
    → Does
        (call_corrupt_durable offset xor_mask)
        (answer (corrupt_durable offset xor_mask m).0 0 [])
        (medium m)
        (medium (corrupt_durable offset xor_mask m).1)
unfolding corrupt_durable
corrupt_durable-Does offset xor_mask m = elim (Bool-cases (leb (length m.durable) offset)) [
  | inl outside ↦ rw outside refl
  | inr inside ↦ rw inside (ground arith, refl)
]

corrupt_volatile-Does :
    (offset xor_mask : ℕ) (m : MemoryStorage)
    → Does
        (call_corrupt_volatile offset xor_mask)
        (answer (corrupt_volatile offset xor_mask m).0 0 [])
        (medium m)
        (medium (corrupt_volatile offset xor_mask m).1)
unfolding corrupt_volatile
corrupt_volatile-Does offset xor_mask m = elim (Bool-cases (leb (length m.volatile_) offset)) [
  | inl outside ↦ rw outside refl
  | inr inside ↦ rw inside (ground arith, refl)
]

module _ (hook : StorageOperation → HookPoint → ℕ → ℕ → ℕ → MemoryStorage → MemoryStorage)
    -- the hook may look at the storage, but does not touch its bytes
    (quiet : (operation : StorageOperation) (point : HookPoint) (call offset n : ℕ)
        (m : MemoryStorage)
      → SameImages m (hook operation point call offset n m)) where
  hooked :
      (operation : StorageOperation) (point : HookPoint) (call offset n : ℕ) (m : MemoryStorage)
      → medium (hook operation point call offset n m) ≡ medium m
  hooked operation point call offset n m =
      same_medium m (hook operation point call offset n m) (quiet operation point call offset n m)

  read_counted-Does :
      (offset n : ℕ) (m : MemoryStorage)
      → (medium (read_counted hook offset n m).3 ≡ medium m)
        × ((read_counted hook offset n m).2
            ≡ take (read_counted hook offset n m).1 (drop offset m.volatile_))
  unfolding read_counted
  read_counted-Does offset n m =
      let call = (count_read m).counters_.read_calls in
      let m1 = hook StorageOperation.read HookPoint.before call offset n (count_read m) in
      let r = read_image call offset n m1 in
      let before_ = hooked StorageOperation.read HookPoint.before call offset n (count_read m) in
      let (kept, got) = read_image-Does call offset n m1 in
      (
        hooked StorageOperation.read HookPoint.after call offset n r.3 ∙ kept ∙ before_,
        got ∙ ap (λ x. take r.1 (drop offset (Medium.image x))) before_,
      )

  write_counted-put :
      (offset : ℕ) (bs : List ℕ) (m : MemoryStorage)
      → medium (write_counted hook offset bs m).2
        ≡ put
            (count_write m).counters_.write_calls
            offset
            (take (write_counted hook offset bs m).1 bs)
            (medium m)
  unfolding write_counted
  write_counted-put offset bs m =
      let call = (count_write m).counters_.write_calls in
      let m1 =
        hook StorageOperation.write HookPoint.before call offset (length bs) (count_write m) in
      let r = write_image call offset bs m1 in
      hooked StorageOperation.write HookPoint.after call offset (length bs) r.2
      ∙ write_image-put call offset bs m1
      ∙ ap (λ x. put call offset (take r.1 bs) x)
          (hooked StorageOperation.write HookPoint.before call offset (length bs) (count_write m))

  flush-Settles :
      (m : MemoryStorage)
      → Does call_flush (answer (flush hook m).0 0 []) (medium m) (medium (flush hook m).1)
  unfolding flush
  flush-Settles m =
      let call = (count_flush m).counters_.flush_calls in
      let m1 = hook StorageOperation.flush_ HookPoint.before call 0 0 (count_flush m) in
      let r = flush_image call m1 in
      around (hook StorageOperation.flush_ HookPoint.after call 0 0 r.1) r.0
        (hooked StorageOperation.flush_ HookPoint.before call 0 0 (count_flush m))
        (hooked StorageOperation.flush_ HookPoint.after call 0 0 r.1) (flush_image-Settles call m1)

  read_at-Does :
      (offset : ℕ) (output : ByteView) (m : MemoryStorage)
      → (medium (read_at hook offset output m).3 ≡ medium m)
        × ((read_at hook offset output m).2
            ≡ take (read_at hook offset output m).1 (drop offset m.volatile_))
  unfolding read_at
  read_at-Does offset output m = elim (Bool-cases (not (valid output))) [
    | inl null_ ↦ rw null_ (refl, refl)
    | inr there ↦ rw there (read_counted-Does offset (view_size output) m)
  ]

  write_at-put :
      (offset : ℕ) (input : ByteView) (m : MemoryStorage)
      → medium (write_at hook offset input m).2
        ≡ put
            (count_write m).counters_.write_calls
            offset
            (take (write_at hook offset input m).1 (contents input))
            (medium m)
  unfolding write_at
  write_at-put offset input m = elim (Bool-cases (not (valid input))) [
    | inl null_ ↦ rw null_ refl
    | inr there ↦ rw there (write_counted-put offset (contents input) m)
  ]

  run_call-Does :
      (c : MemoryCall) (m : MemoryStorage)
      → Does c (run_call hook c m).0 (medium m) (medium (run_call hook c m).1)
  unfolding run_call crash_discard_volatile crash_persist_all_dirty clear_faults add_fault
      reset_counters crash_materialize
  run_call-Does (call_read offset output) m = read_at-Does offset output m
  run_call-Does (call_write offset input) m =
      ((count_write m).counters_.write_calls, write_at-put offset input m)
  run_call-Does call_flush m = flush-Settles m
  run_call-Does call_discard m = refl
  run_call-Does call_persist m = refl
  run_call-Does call_clear_faults m = refl
  run_call-Does call_reset m = refl
  run_call-Does (call_materialize fragments) m =
      materialize-Does fragments (select_fragments fragments m.dirty_writes m.durable) m refl
  run_call-Does (call_add_fault rule_) m = refl
  run_call-Does (call_corrupt_durable offset xor_mask) m = corrupt_durable-Does offset xor_mask m
  run_call-Does (call_corrupt_volatile offset xor_mask) m = corrupt_volatile-Does offset xor_mask m

  -- Any calls of a `MemoryStorage`, with their replies, do to its medium what each of them promises. A
  -- read returns the bytes of the image and keeps the medium. A write puts the bytes that it says it has
  -- transferred in the image and in the pending writes. A flush that returns ok makes the image durable,
  -- and one that fails keeps the medium. A crash settles both images on what was durable, on all
  -- pending writes over it, or on the pieces that were asked for, each of a pending write; if they are
  -- refused, nothing changes. A corruption flips one byte that lies in its image, or is refused. A
  -- reset of the counters forgets the pending writes, and calls on the faults keep the medium. Of the
  -- hook it is assumed that it does not touch the bytes.
  pub run_calls-refines :
      (cs : List MemoryCall) (m : MemoryStorage)
      → Trace cs (run_calls hook cs m).0 (medium m) (medium (run_calls hook cs m).1)
  unfolding run_calls
  run_calls-refines [] m = here
  run_calls-refines (c ∷ cs) m =
      next (run_call-Does c m) (run_calls-refines cs (run_call hook c m).1)

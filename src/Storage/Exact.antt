-- ===== src/Storage/Exact.antt =====
-- `write_exact` and `read_exact`, which go on until all bytes are transferred.
use tfdb.Prelude.{
  ◌-◌, ◌++◌, take, ℕ, zero, suc, ◌+◌, Bool, true, false, not, ◌&&◌, Option, none, some, List, [],
  ◌∷◌, ltb, ◌==◌, if◌then◌else◌, length, drop,
}
use tfdb.Status.{Result, returns, fails, ErrorCode, Status, ok, error, is_ok}
use tfdb.Bytes.{ByteView, valid, contents}
use tfdb.RingStore.State.{add64}

-- The interface of a backend. A transfer gives its status, the number of bytes that it says it has
-- transferred, and the backend after it; a read also gives the buffer after it.
pub record Storage (S : Type 0) : Type 0 where
  pub read_at : ℕ → ℕ → S → Status × ℕ × List ℕ × S
  pub write_at : ℕ → List ℕ → S → Status × ℕ × S

abbrev pub is_interrupted : Status → Bool
is_interrupted (error ErrorCode.interrupted) = true
is_interrupted status = false

-- An interruption before a byte was transferred.
abbrev pub is_retry : Status → ℕ → Bool
is_retry status transferred = is_interrupted status && transferred == 0

module _ {S : Type 0} (dev : Storage S) where
  -- The loop, with `done` bytes transferred and `rest` to come. The source goes on for as long as the
  -- backend is interrupted; here nothing is returned when the rounds run out. A retry has transferred
  -- nothing, so it goes on as a transfer does.
  unfoldable pub write_loop : ℕ → ℕ → ℕ → List ℕ → S → Option (Status × S)
  write_loop rounds offset done [] s = some (ok, s)
  write_loop zero offset done (b ∷ rest) s = none
  write_loop (suc rounds) offset done (b ∷ rest) s =
      let (status, transferred, s') = dev.write_at (add64 offset done) (b ∷ rest) s in
      let next = write_loop rounds offset (done + transferred) (drop transferred (b ∷ rest)) s' in
      if is_retry status transferred
      then next
      else if not (is_ok status)
      then some (status, s')
      else if transferred == 0
      then some (error ErrorCode.io_error, s')
      else if ltb (length (b ∷ rest)) transferred
      then some (error ErrorCode.internal_error, s')
      else next

  unfoldable pub write_exact : ℕ → ℕ → ByteView → S → Option (Status × S)
  unfolding write_loop
  write_exact rounds offset input s =
      if not (valid input)
      then some (error ErrorCode.invalid_argument, s)
      else write_loop rounds offset 0 (contents input) s

  -- The bytes of a transfer stand before those of the rest.
  abbrev pub after_bytes : List ℕ → Option (Result (List ℕ) × S) → Option (Result (List ℕ) × S)
  after_bytes bs none = none
  after_bytes bs (some (fails code, s)) = some (fails code, s)
  after_bytes bs (some (returns rest, s)) = some (returns (bs ++ rest), s)

  -- What a round of `read_exact` comes to, of `left` bytes, if `next` is what follows it.
  abbrev pub read_round :
      Status → ℕ → ℕ → S → Option (Result (List ℕ) × S) → Option (Result (List ℕ) × S)
  read_round (error code) transferred left s next =
      if is_retry (error code) transferred then next else some (fails code, s)
  read_round ok transferred left s next =
      if transferred == 0
      then some (fails ErrorCode.io_error, s)
      else if ltb left transferred
      then some (fails ErrorCode.internal_error, s)
      else next

  -- The loop of `read_exact`, with `done` bytes transferred and `left` to come.
  unfoldable pub read_loop : ℕ → ℕ → ℕ → ℕ → S → Option (Result (List ℕ) × S)
  read_loop rounds offset done zero s = some (returns [], s)
  read_loop zero offset done (suc left) s = none
  read_loop (suc rounds) offset done (suc left) s =
      let (status, transferred, buffer, s') = dev.read_at (add64 offset done) (suc left) s in
      let rest = read_loop rounds offset (done + transferred) (suc left - transferred) s' in
      read_round status transferred (suc left) s' (after_bytes (take transferred buffer) rest)

  -- Of a buffer of `n` bytes that is not null; what is returned is the filled buffer.
  unfoldable pub read_exact : ℕ → ℕ → ℕ → S → Option (Result (List ℕ) × S)
  unfolding read_loop
  read_exact rounds offset n s = read_loop rounds offset 0 n s

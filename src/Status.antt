-- ===== src/Status.antt =====
-- include/tfdb/status.hpp. The text of a message is diagnostic only and is not modelled: a status is
-- its code. `ErrorCode::ok` is the status `ok`, and the other codes are an `ErrorCode`. A C++ function
-- that returns a `Status` and fills an output object on success returns a `Result` here.
use tfdb.Prelude.{Bool, true, false}

pub data ErrorCode : Type 0 where
  invalid_argument out_of_range io_error interrupted no_space corrupt unsupported : ErrorCode
  not_found busy overwritten generation_exhausted closed internal_error : ErrorCode

pub data Status : Type 0 where
  ok : Status
  error : ErrorCode → Status

-- `Status::ok`
abbrev pub is_ok : Status → Bool
is_ok ok = true
is_ok (error c) = false

pub data Result {ℓ} (A : Type ℓ) : Type ℓ where
  returns : A → Result A
  fails : ErrorCode → Result A

-- `if (test) return Status::Error(code, ...);`
abbrev pub reject_if : Bool → ErrorCode → Result (Unit {0})
reject_if false code = returns tt
reject_if true code = fails code

-- `if (!status.ok()) return status;` between two steps, the second of which may use the first's value.
infixl 5 ◌>>◌
abbrev pub ◌>>◌ {ℓ} : {B : Type ℓ} → Result (Unit {0}) → Result B → Result B
fails code >> next = fails code
returns u >> next = next

infixl 5 ◌>>=◌
abbrev pub ◌>>=◌ {ℓ κ} : {A : Type ℓ} {B : Type κ} → Result A → (A → Result B) → Result B
fails code >>= next = fails code
returns value >>= next = next value

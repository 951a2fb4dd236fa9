-- ===== src/Errors.antt =====
-- internal/domain/common/errors.go: errors with a code, and the results of calls that may fail.
use knxvault.Prelude.{◌≡◌, refl, ◌⊎◌, inl, inr, Text}

pub data ErrorCode : Type 0 where
  internal validation unauthorized forbidden not_found unavailable : ErrorCode

-- KNXVaultError. The cause of a wrapped error is not kept.
pub record KnxVaultError : Type 0 where
  pub code : ErrorCode
  pub message : Text

pub data Result (A : Type 0) : Type 0 where
  ok : A → Result A
  err : KnxVaultError → Result A

-- common.New and common.Wrap
abbrev pub fail : {A : Type 0} → ErrorCode → Text → Result A
fail code message = err (record { code = code; message = message })

-- A call behind a call, where an error ends the two.
abbrev pub and_then : {A B : Type 0} → Result A → (A → Result B) → Result B
and_then (ok a) f = f a
and_then (err e) f = err e

-- To split on a result and keep the equation.
pub Result-cases :
    {A : Type 0} (r : Result A) → ((a : A) × (r ≡ ok a)) ⊎ ((e : KnxVaultError) × (r ≡ err e))
Result-cases (ok a) = inl (a, refl)
Result-cases (err e) = inr (e, refl)

-- ===== src/Common/Errors.antt =====
-- engine/core: error codes and the result of a fallible call. An error is its code; the message and
-- the domain, which the program only prints, are left out.
use mathlib.Core.Bool.{Bool, true, false}
use mathlib.Core.Path.{◌≡◌, refl}
use mathlib.Core.Logic.{◌⊎◌, inl, inr}

pub data ErrorCode : Type 0 where
  ok_code invalid_argument not_found timeout busy version_conflict unauthorized : ErrorCode
  rate_limited internal_error : ErrorCode

pub data Result {ℓ} (A : Type ℓ) : Type ℓ where
  ok : A → Result A
  err : ErrorCode → Result A

unfoldable pub is_retryable : ErrorCode → Bool
is_retryable timeout = true
is_retryable busy = true
is_retryable rate_limited = true
is_retryable _ = false

pub Result-cases {ℓ} :
    {A : Type ℓ} (r : Result A) → ((a : A) × (r ≡ ok a)) ⊎ ((c : ErrorCode) × (r ≡ err c))
Result-cases (ok a) = inl (a, refl)
Result-cases (err c) = inr (c, refl)

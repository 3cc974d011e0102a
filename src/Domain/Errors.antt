-- ===== src/Domain/Errors.antt =====
-- internal/domain/errors.go. A `Validate` that returns nil is `none`; an error is the sentinel that
-- it wraps, and `invalid` where the source formats a message with no sentinel.
use whymiss.Prelude.{◌≡◌, refl, ◌⊎◌, inl, inr}

pub data Err : Type 0 where
  invalid_kind invalid_attr missing_timestamp not_utc invalid_clock missing_source : Err
  invalid_source unsorted slot_mismatch no_evidence invalid_cause invalid_outcome : Err
  invalid_confidence missing_version empty_statement invalid : Err

-- A value, or an error.
pub data Result {ℓ} (A : Type ℓ) : Type ℓ where
  ok : A → Result A
  err : Err → Result A

pub Result-cases {ℓ} :
    {A : Type ℓ} (r : Result A) → ((e : Err) × (r ≡ err e)) ⊎ ((a : A) × (r ≡ ok a))
Result-cases (ok a) = inr (a, refl)
Result-cases (err e) = inl (e, refl)

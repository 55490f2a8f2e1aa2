-- ===== src/Common/Errors.antt =====
-- Go's `error` and `(T, error)`: an error carries its message, or wraps another (`fmt.Errorf` with
-- `%w`); `nil` is `none`.
use mathlib.Core.Path.{◌≡◌, refl}
use mathlib.Core.Logic.{◌⊎◌, inl, inr}
use mathlib.Core.Option.{Option}
use signalstream.Common.Bytes.{Text}

pub data Err : Type 0 where
  -- an error value with its message: `errors.New`, or one that another package returned
  plain : Text → Err
  -- `fmt.Errorf("<prefix>: %w<suffix>", err)`; the suffix may quote a second error by `%v`
  wrap : Text → Err → Err
  wrap_quoting : Text → Err → Err → Err

abbrev pub Failure : Type 0
Failure = Option Err

pub data Result {ℓ} (A : Type ℓ) : Type ℓ where
  ok : A → Result A
  err : Err → Result A

pub Result-cases {ℓ} :
    {A : Type ℓ} (r : Result A) → ((a : A) × (r ≡ ok a)) ⊎ ((e : Err) × (r ≡ err e))
Result-cases (ok a) = inl (a, refl)
Result-cases (err e) = inr (e, refl)

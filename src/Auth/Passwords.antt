-- ===== src/Auth/Passwords.antt =====
-- internal/auth/password.go. The package bcrypt is a parameter, whose generation draws a salt from the
-- state.
use signalstream.Common.{ℕ, Bool, true, false, none, some, Failure, Result, Text}

pub record Bcrypt (S : Type 0) : Type 0 where
  pub default_cost : ℕ
  pub generate_from_password : Text → ℕ → S → Result Text
  pub compare_hash_and_password : (hash password : Text) → Failure

module _ {S : Type 0} (bcrypt : Bcrypt S) where
  unfoldable pub hash_password : Text → S → Result Text
  hash_password password s = bcrypt.generate_from_password password bcrypt.default_cost s

  unfoldable pub check_password_hash : Text → Text → Bool
  check_password_hash password hash = elim (bcrypt.compare_hash_and_password hash password) [
    | none ↦ true
    | some e ↦ false
  ]

-- ===== src/Auth/Tokens.antt =====
-- internal/auth/jwt.go: the tokens of a session. The JWT library is a parameter; a time is a number of
-- nanoseconds, and a `NumericDate` one of seconds.
pub mod Lifetime
pub mod Toy
mod Tests
use signalstream.Common.{
  ℕ, Bool, true, false, ◌+◌, ◌*◌, ◌/◌, Result, ok, err, plain, Text, codes, if◌then◌else◌,
}
use signalstream.Database.{Uuid}
use signalstream.Retry.{second}

-- `Claims`, with the registered claims that the program sets.
pub record TokenClaims : Type 0 where
  pub user_id : Uuid
  pub email : Text
  pub expires_at : ℕ
  pub issued_at : ℕ
  pub issuer : Text

-- `SignedString` of a token for HS256, and `ParseWithClaims` at a time, which yields the claims and
-- whether the token is valid.
pub record Jwt : Type 0 where
  pub signed_string : Text → TokenClaims → Result Text
  pub parse_with_claims : Text → Text → ℕ → Result (TokenClaims × Bool)

-- `TokenService`
pub record TokenService : Type 0 where
  pub secret : Text

unfoldable pub new_token_service : Text → TokenService
new_token_service secret = record { secret = secret }

-- `jwt.NewNumericDate`
abbrev pub numeric_date : ℕ → ℕ
numeric_date time = time / second

abbrev pub lifetime : ℕ
lifetime = 24 * 3600 * second

-- The claims of a token that is made at the time `now`.
unfoldable pub new_claims : Uuid → Text → ℕ → TokenClaims
new_claims user_id email now = record {
  user_id = user_id;
  email = email;
  expires_at = numeric_date (now + lifetime);
  issued_at = numeric_date now;
  issuer = codes "signalstream";
}

module _ (jwt : Jwt) (service : TokenService) where
  unfoldable pub generate_token : Uuid → Text → ℕ → Result Text
  generate_token user_id email now = jwt.signed_string service.secret (new_claims user_id email now)

  unfoldable pub validate_token : Text → ℕ → Result TokenClaims
  validate_token token now = elim (jwt.parse_with_claims token service.secret now) [
    | err e ↦ err e
    | ok parsed ↦ if parsed.1 then ok parsed.0 else err (plain (codes "invalid token"))
  ]

-- ===== src/Auth/Tokens/Lifetime.antt =====
-- internal/auth/jwt.go: how long a token is accepted.
use signalstream.Common.{
  ℕ, ◌+◌, ◌*◌, ◌/◌, ◌≤◌, ◌<◌, ◌≡◌, ◌≢◌, ◌↔◌, ◌⊎◌, true, inl, inr, ok, err, Err, Text, arith, All,
}
use signalstream.Database.{Uuid}
use signalstream.Retry.{second}
use signalstream.Auth.Tokens.{
  TokenClaims, Jwt, TokenService, numeric_date, lifetime, new_claims, generate_token,
  validate_token,
}

-- What the documentation of the JWT library promises of the tokens that it signs: they consist of
-- characters other than a space, and are parsed into their claims with the same secret until they
-- expire, and then rejected.
pub record JwtLaws (jwt : Jwt) : Type 0 where
  pub one_word :
      (secret token : Text) (claims : TokenClaims)
      → jwt.signed_string secret claims ≡ ok token
      → All (λ c. c ≢ b' ') token
  pub parse-signed :
      (secret token : Text) (claims : TokenClaims) (now : ℕ)
      → jwt.signed_string secret claims ≡ ok token
      → now < claims.expires_at * second
      → jwt.parse_with_claims token secret now ≡ ok (claims, true)
  pub parse-expired :
      (secret token : Text) (claims : TokenClaims) (now : ℕ)
      → jwt.signed_string secret claims ≡ ok token
      → claims.expires_at * second ≤ now
      → (e : Err) × (jwt.parse_with_claims token secret now ≡ err e)

nat_cases : (a b : ℕ) → (a < b) ⊎ (b ≤ a)
nat_cases a b = ground arith

module _ (jwt : Jwt) (laws : JwtLaws jwt) (service : TokenService) where
  -- A token is accepted, with the user and the email that it was made for, exactly as long as the whole
  -- second of the time is before the one in which the token is 24 hours old. The hypothesis: the JWT
  -- library obeys `JwtLaws`.
  pub validate-generate :
      (user_id : Uuid) (email token : Text) (made now : ℕ)
      → generate_token jwt service user_id email made ≡ ok token
      → (validate_token jwt service token now ≡ ok (new_claims user_id email made))
        ↔ (now / second < (made + lifetime) / second)
  unfolding generate_token validate_token new_claims
  validate-generate user_id email token made now e =
      let claims = new_claims user_id email made in
      elim (nat_cases (now / second) ((made + lifetime) / second)) [
        | inl early ↦
            let fresh : now < numeric_date (made + lifetime) * second = omega arith in
            let parsed = laws.parse-signed service.secret token claims now e fresh in
            (λ _. early, λ _. ground arith)
        | inr late ↦
            let stale : numeric_date (made + lifetime) * second ≤ now = omega arith in
            let (failure, parsed) = laws.parse-expired service.secret token claims now e stale in
            (λ accepted. absurd (ground arith), λ early. absurd (omega arith))
      ]

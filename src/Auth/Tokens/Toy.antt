-- ===== src/Auth/Tokens/Toy.antt =====
-- A stand-in for the JWT library that signs the claims of one user at one time.
use signalstream.Common.{
  ℕ, ◌*◌, ◌≡◌, ◌≤◌, Bool, true, ◌&&◌, [], ok, err, plain, Text, codes, text_eq, text_eq_iff, ltb,
  ◌==◌, if◌then◌else◌, arith, Bool-cases, inl, inr, ap, subst, All, ◌≢◌, Err,
}
use signalstream.Retry.{second}
use signalstream.Auth.Tokens.{TokenClaims, Jwt, TokenService}
use signalstream.Auth.Tokens.Lifetime.{JwtLaws}

abbrev pub service : TokenService
service = record { secret = codes "secret" }

abbrev claims_of_ann : TokenClaims
claims_of_ann = record {
  user_id = 0;
  email = codes "ann";
  expires_at = 86400;
  issued_at = 0;
  issuer = codes "signalstream";
}

abbrev is_ann : TokenClaims → Bool
is_ann c =
    ((c.user_id == 0) && text_eq c.email (codes "ann"))
    && ((c.expires_at == 86400) && ((c.issued_at == 0) && text_eq c.issuer (codes "signalstream")))

abbrev pub toy : Jwt
toy = record {
  signed_string = λ secret c. if is_ann c then ok (codes "token") else err (plain []);
  parse_with_claims = λ token secret now.
      if ltb now (86400 * second) then ok (claims_of_ann, true) else err (plain (codes "expired"));
}

is_ann-eq :
    (user : ℕ) (email : Text) (e i : ℕ) (issuer : Text)
    → is_ann
        (record { user_id = user; email = email; expires_at = e; issued_at = i; issuer = issuer })
      ≡ true
    → record { user_id = user; email = email; expires_at = e; issued_at = i; issuer = issuer }
      ≡ claims_of_ann
is_ann-eq user email e i issuer h =
    ground (arith, text_eq_iff email (codes "ann"), text_eq_iff issuer (codes "signalstream"))

signed-ann :
    (secret token : Text) (c : TokenClaims)
    → toy.signed_string secret c ≡ ok token
    → (c ≡ claims_of_ann) × (codes "token" ≡ token)
signed-ann secret token c h = elim (Bool-cases (is_ann c)) [
  | inl ours ↦ (is_ann-eq c.user_id c.email c.expires_at c.issued_at c.issuer ours, ground arith)
  | inr other ↦ absurd (ground arith)
]

parse-expired_ann :
    (token : Text) (now : ℕ)
    → 86400 * second ≤ now
    → (e : Err) × (toy.parse_with_claims token [] now ≡ err e)
parse-expired_ann token now late = (plain (codes "expired"), ground arith)

token_word : All (λ c. c ≢ b' ') (codes "token")
token_word = (omega arith, (omega arith, (omega arith, (omega arith, (omega arith, tt)))))

pub toy-laws : JwtLaws toy
toy-laws = record {
  one_word =
      λ secret token c h. let (_, same) = signed-ann secret token c h in rw (← same) token_word;
  parse-signed = λ secret token c now h early.
      let (same, _) = signed-ann secret token c h in
      ground (arith, ap (λ (x : TokenClaims). x.expires_at) same);
  parse-expired = λ secret token c now h late.
      let (same, _) = signed-ann secret token c h in
      parse-expired_ann token now
        (subst (λ (x : TokenClaims). x.expires_at * second ≤ now) same late);
}

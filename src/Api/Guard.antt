-- ===== src/Api/Guard.antt =====
-- internal/api/middleware.go: which requests reach a protected handler.
use signalstream.Common.{
  ◌≡◌, ◌≢◌, refl, ap, false, inl, inr, List, [], ◌∷◌, ◌++◌, some, Result, ok, Text, codes, text_eq,
  text_eq_iff, is_empty, All, Bool-cases, Option-cases, Result-cases, ◌==◌, arith,
}
use signalstream.Api.{
  Claims, Request, Response, Handler, error_response, push, split_spaces, bearer_token,
  require_auth,
}

abbrev pub NoSpace : Text → Type 0
NoSpace t = All (λ c. c ≢ b' ') t

-- The header that a client with this token sends.
abbrev pub bearer : Text → Text
bearer token = codes "Bearer " ++ token

split-NoSpace : (t : Text) → NoSpace t → split_spaces t ≡ t ∷ []
unfolding split_spaces push
split-NoSpace [] h = refl
split-NoSpace (c ∷ t) h = ground (arith, h.0, split-NoSpace t h.1)

split-cases : (t : Text) → (w : Text) × (ws : List Text) × (split_spaces t ≡ w ∷ ws)
unfolding split_spaces push
split-cases [] = ([], [], refl)
split-cases (c ∷ t) =
    let (w, ws, e) = split-cases t in
    elim (Bool-cases (c == b' ')) [
      | inl space ↦ ([], split_spaces t, ground arith)
      | inr other ↦ (c ∷ w, ws, ground arith)
    ]

split-one : (t w : Text) → split_spaces t ≡ w ∷ [] → (t ≡ w) × NoSpace w
unfolding split_spaces push
split-one [] w e = ground arith
split-one (c ∷ t) w e =
    let (v, vs, q) = split-cases t in
    elim (Bool-cases (c == b' ')) [
      | inl space ↦ absurd (ground arith)
      | inr other ↦
          let only : split_spaces t ≡ v ∷ [] = ground arith in ground (arith, split-one t v only)
    ]

split-two : (t a b : Text) → split_spaces t ≡ a ∷ b ∷ [] → (t ≡ a ++ b' ' ∷ b) × NoSpace b
unfolding split_spaces push
split-two [] a b e = absurd (ground arith)
split-two (c ∷ t) a b e =
    let (v, vs, q) = split-cases t in
    elim (Bool-cases (c == b' ')) [
      | inl space ↦
          let last : split_spaces t ≡ b ∷ [] = ground arith in ground (arith, split-one t b last)
      | inr other ↦
          let both : split_spaces t ≡ v ∷ b ∷ [] = ground arith in
          ground (arith, split-two t v b both)
    ]

bearer_token-eq :
    (t token : Text)
    → bearer_token (split_spaces t) ≡ some token
    → (t ≡ bearer token) × NoSpace token
unfolding bearer_token
bearer_token-eq t token h = go (split_spaces t) refl h
  where
    go :
        (parts : List Text)
        → split_spaces t ≡ parts
        → bearer_token parts ≡ some token
        → (t ≡ bearer token) × NoSpace token
    go [] q h = absurd (ground arith)
    go (a ∷ []) q h = absurd (ground arith)
    go (a ∷ b ∷ []) q h = ground (arith, split-two t a b q, text_eq_iff a (codes "Bearer"))
    go (a ∷ b ∷ c ∷ ws) q h = absurd (ground arith)

split-bearer :
    (token : Text) → NoSpace token → bearer_token (split_spaces (bearer token)) ≡ some token
unfolding bearer_token split_spaces push text_eq
split-bearer token h = rw (split-NoSpace token h) refl

module _ {S : Type 0} (validate_token : Text → S → Result Claims) where
  -- A request carries a token that is valid in a state, for these claims.
  pub record Authorized (r : Request) (s : S) (claims : Claims) : Type 0 where
    pub token : Text
    pub header : r.authorization ≡ bearer token
    pub one_word : NoSpace token
    pub valid : validate_token token s ≡ ok claims

  Authorized-token :
      (r : Request) (s : S) (claims : Claims) (a : Authorized r s claims)
      → bearer_token (split_spaces r.authorization) ≡ some a.token
  Authorized-token r s claims a = rw a.header (split-bearer a.token a.one_word)

  pub require_auth-admits :
      (next : Handler S) (r : Request) (s : S) (claims : Claims)
      → Authorized r s claims
      → require_auth validate_token next r s ≡ next (record r { claims = some claims }) s
  unfolding require_auth
  require_auth-admits next r s claims a =
      let there : is_empty r.authorization ≡ false = ap is_empty a.header in
      ground (arith, there, Authorized-token r s claims a, a.valid)

  module _ (next : Handler S) where
    -- What the check answers: the handler's answer to an authorized request, else 401.
    pub data Guards (r : Request) (s : S) (answer : Response × S) : Type 0 where
      admitted :
          (claims : Claims)
          → Authorized r s claims
          → answer ≡ next (record r { claims = some claims }) s
          → Guards r s answer
      refused :
          (message : Text)
          → ((claims : Claims) → ¬ Authorized r s claims)
          → answer ≡ (error_response 401 message, s)
          → Guards r s answer

    -- A protected handler runs exactly on the requests whose header is `Bearer`, one space, and a valid
    -- token without spaces, and then with the claims of that token; every other request is answered with
    -- 401 and leaves the state as it is.
    pub require_auth-Guards :
        (r : Request) (s : S) → Guards r s (require_auth validate_token next r s)
    unfolding require_auth
    require_auth-Guards r s = elim (Bool-cases (is_empty r.authorization)) [
      | inl missing ↦
          refused (codes "missing authorization header")
            (λ claims a. absurd (ground (arith, a.header))) (ground arith)
      | inr there ↦ elim (Option-cases (bearer_token (split_spaces r.authorization))) [
        | inl malformed ↦
            refused (codes "invalid authorization header format")
              (λ claims a. absurd (ground (arith, Authorized-token r s claims a))) (ground arith)
        | inr (token, found) ↦
            let (header, one_word) = bearer_token-eq r.authorization token found in
            elim (Result-cases (validate_token token s)) [
              | inl (claims, valid) ↦
                  admitted claims
                    (record { token = token; header = header; one_word = one_word; valid = valid })
                    (ground arith)
              | inr (e, invalid) ↦
                  refused (codes "invalid or expired token")
                    (λ claims a. absurd (ground (arith, Authorized-token r s claims a, a.valid)))
                    (ground arith)
            ]
      ]
    ]

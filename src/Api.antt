-- ===== src/Api.antt =====
-- internal/api: requests and responses, and the check of the token in front of the handlers. JSON is
-- left out: a response holds the value that the source encodes.
pub mod Guard
pub mod Handlers
pub mod Accounts
pub mod Keys
pub mod Listings
pub mod Consistent
pub mod Streaming
pub mod Server
mod Tests
use signalstream.Common.{
  ℕ, Bool, List, [], ◌∷◌, Option, none, some, Result, ok, err, Text, codes, text_eq, is_empty, ◌==◌,
  if◌then◌else◌,
}
use signalstream.Common.Int.{ℤ}
use signalstream.Database.{Uuid, Strategy, Alert}

-- `auth.Claims`, without the registered claims, which only the validation reads.
pub record Claims : Type 0 where
  pub user_id : Uuid
  pub email : Text

pub data Body : Type 0 where
  error_body : Text → Body
  status_body : Text → Body
  strategy_body : Strategy → Body
  strategies_body : List Strategy → Body
  alerts_body : List Alert → Body
  -- the id, the email, and the time of registration
  me_body : (id email : Text) (created_at : ℕ) → Body
  counters_body : List (Text × ℤ) → Body
  -- a text that is no JSON, and nothing
  text_body : Text → Body
  no_body : Body
  -- the providers, and whether the user has a key of each
  keys_body : List (Text × Bool) → Body
  -- the token, and the id and the email of the user
  auth_body : (token id email : Text) → Body

pub record Response : Type 0 where
  pub status : ℕ
  pub body : Body

-- The method and the path, the header `Authorization`, the parameters of the query, the body, and `UserClaimsKey` of the context.
pub record Request : Type 0 where
  pub method : Text
  pub path : Text
  pub authorization : Text
  pub parameter : Text → Text
  pub body : Text
  pub claims : Option Claims

abbrev pub Handler : Type 0 → Type 0
Handler S = Request → S → Response × S

-- `errorResponse`
unfoldable pub error_response : ℕ → Text → Response
error_response status message = record { status = status; body = error_body message }

unfoldable pub push : ℕ → List Text → List Text
push c [] = (c ∷ []) ∷ []
push c (w ∷ ws) = (c ∷ w) ∷ ws

-- `strings.Split(s, " ")`
unfoldable pub split_spaces : Text → List Text
split_spaces [] = [] ∷ []
split_spaces (c ∷ t) = let rest = split_spaces t in if c == b' ' then [] ∷ rest else push c rest

-- The token of a header in two parts, of which the first is `Bearer`.
unfoldable pub bearer_token : List Text → Option Text
bearer_token (scheme ∷ token ∷ []) = if text_eq scheme (codes "Bearer") then some token else none
bearer_token _ = none

-- `requireAuth`; the parameter is `ValidateToken`, which reads the clock.
unfoldable pub require_auth : {S : Type 0} → (Text → S → Result Claims) → Handler S → Handler S
require_auth validate_token next r s =
    if is_empty r.authorization
    then (error_response 401 (codes "missing authorization header"), s)
    else elim (bearer_token (split_spaces r.authorization)) [
      | none ↦ (error_response 401 (codes "invalid authorization header format"), s)
      | some token ↦ elim (validate_token token s) [
        | err e ↦ (error_response 401 (codes "invalid or expired token"), s)
        | ok claims ↦ next (record r { claims = some claims }) s
      ]
    ]

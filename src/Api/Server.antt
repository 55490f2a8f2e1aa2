-- ===== src/Api/Server.antt =====
-- internal/api/server.go: the routes, the check of the token in front of most of them, and the headers
-- for other origins. `http.ServeMux` finds the route whose method and path are the request's, where GET
-- serves HEAD too; a path that is not in its clean form, which it redirects, is left out. The handlers
-- are a parameter over any state.
pub mod Protected
pub mod Wired
pub mod Toy
mod Tests
use signalstream.Common.{
  Bool, true, false, ◌&&◌, ◌||◌, List, [], ◌∷◌, Option, none, some, Result, Text, codes, text_eq,
  if◌then◌else◌,
}
use signalstream.Api.{Claims, text_body, no_body, Response, Request, Handler, require_auth}

pub record Handlers (S : Type 0) : Type 0 where
  pub register : Handler S
  pub login : Handler S
  pub get_me : Handler S
  pub list_api_keys : Handler S
  pub update_api_key : Handler S
  pub delete_api_key : Handler S
  pub list_strategies : Handler S
  pub create_strategy : Handler S
  pub delete_strategy : Handler S
  pub toggle_strategy : Handler S
  pub list_alerts : Handler S
  pub mark_alert_read : Handler S
  pub alert_stream : Handler S
  pub metrics : Handler S

pub record Route (S : Type 0) : Type 0 where
  pub method : Text
  pub path : Text
  pub handler : Handler S

abbrev route : {S : Type 0} → Text → Text → Handler S → Route S
route method path handler = record { method = method; path = path; handler = handler }

abbrev pub register_path : Text
register_path = codes "/api/v1/auth/register"

abbrev pub login_path : Text
login_path = codes "/api/v1/auth/login"

abbrev pub metrics_path : Text
metrics_path = codes "/api/v1/metrics"

module _ {S : Type 0} (validate_token : Text → S → Result Claims) (h : Handlers S) where
  -- `Routes`, in the order of the registration.
  unfoldable pub routes : List (Route S)
  routes =
      route (codes "POST") register_path h.register
      ∷ route (codes "POST") login_path h.login
      ∷ route (codes "GET") (codes "/api/v1/auth/me") (require_auth validate_token h.get_me)
      ∷ route (codes "GET") (codes "/api/v1/keys") (require_auth validate_token h.list_api_keys)
      ∷ route (codes "POST") (codes "/api/v1/keys") (require_auth validate_token h.update_api_key)
      ∷ route (codes "DELETE") (codes "/api/v1/keys") (require_auth validate_token h.delete_api_key)
      ∷ route (codes "GET") (codes "/api/v1/strategies")
          (require_auth validate_token h.list_strategies)
      ∷ route (codes "POST") (codes "/api/v1/strategies")
          (require_auth validate_token h.create_strategy)
      ∷ route (codes "DELETE") (codes "/api/v1/strategies")
          (require_auth validate_token h.delete_strategy)
      ∷ route (codes "PATCH") (codes "/api/v1/strategies/toggle")
          (require_auth validate_token h.toggle_strategy)
      ∷ route (codes "GET") (codes "/api/v1/alerts") (require_auth validate_token h.list_alerts)
      ∷ route (codes "PATCH") (codes "/api/v1/alerts/read")
          (require_auth validate_token h.mark_alert_read)
      ∷ route (codes "GET") (codes "/api/v1/alerts/stream")
          (require_auth validate_token h.alert_stream)
      ∷ route (codes "GET") metrics_path h.metrics
      ∷ []

-- Whether a route answers a method.
unfoldable pub answers : Text → Text → Bool
answers method asked =
    text_eq method asked || (text_eq method (codes "GET") && text_eq asked (codes "HEAD"))

unfoldable pub find_route : {S : Type 0} → Text → Text → List (Route S) → Option (Route S)
find_route method path [] = none
find_route method path (r ∷ rs) =
    if text_eq r.path path && answers r.method method then some r else find_route method path rs

unfoldable pub known_path : {S : Type 0} → Text → List (Route S) → Bool
known_path path [] = false
known_path path (r ∷ rs) = if text_eq r.path path then true else known_path path rs

-- `ServeHTTP` of the mux.
unfoldable pub serve_mux : {S : Type 0} → List (Route S) → Handler S
serve_mux rs r s = elim (find_route r.method r.path rs) [
  | some found ↦ found.handler r s
  | none ↦ (
    (if known_path r.path rs
        then record { status = 405; body = text_body (codes "Method Not Allowed\n") }
        else record { status = 404; body = text_body (codes "404 page not found\n") }),
    s,
  )
]

-- A response with the origin that may read it.
pub record Reply : Type 0 where
  pub allow_origin : Text
  pub response : Response

-- `corsMiddleware`
unfoldable pub cors_middleware : {S : Type 0} → Text → Handler S → Request → S → Reply × S
cors_middleware frontend_url next r s =
    let (response, s') = next r s in
    if text_eq r.method (codes "OPTIONS")
    then (
      record { allow_origin = frontend_url; response = record { status = 200; body = no_body } },
      s,
    )
    else (record { allow_origin = frontend_url; response = response }, s')

-- The handler that `Routes` returns.
unfoldable pub serve :
    {S : Type 0} → Text → (Text → S → Result Claims) → Handlers S → Request → S → Reply × S
serve frontend_url validate_token h =
    cors_middleware frontend_url (serve_mux (routes validate_token h))

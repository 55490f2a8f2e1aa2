-- ===== src/Api/Server/Protected.antt =====
-- internal/api/{server,middleware}.go: what a request can do without a valid token.
use signalstream.Common.{
  ℕ, ◌≡◌, refl, ◌⊎◌, inl, inr, ◌&&◌, List, [], ◌∷◌, some, Result, Text, codes, text_eq, text_eq_iff,
  All, Bool-cases, Option-cases, subst, arith,
}
use signalstream.Api.{Claims, Request, Handler, error_response, require_auth}
use signalstream.Api.Guard.{Guards, Authorized, require_auth-Guards}
use signalstream.Api.Server.{
  Handlers, Route, register_path, login_path, metrics_path, routes, answers, find_route, known_path,
  serve_mux, cors_middleware, serve,
}

-- A path that needs no token.
abbrev pub IsPublic : Text → Type 0
IsPublic path = (path ≡ register_path) ⊎ ((path ≡ login_path) ⊎ (path ≡ metrics_path))

-- A status of refusal: no valid token, no such path, or no such method.
abbrev pub Refuses : ℕ → Type 0
Refuses status = (status ≡ 401) ⊎ ((status ≡ 404) ⊎ (status ≡ 405))

module _ {S : Type 0} (validate_token : Text → S → Result Claims) where
  -- Without a valid token the handler changes nothing and does not answer with success.
  abbrev NeedsToken : Handler S → Type 0
  NeedsToken h =
      (r : Request) (s : S)
      → ((claims : Claims) × Authorized validate_token r s claims)
        ⊎ (((h r s).0.status ≡ 401) × ((h r s).1 ≡ s))

  abbrev IsProtected : Route S → Type 0
  IsProtected route = IsPublic route.path ⊎ NeedsToken route.handler

  require_auth-NeedsToken : (next : Handler S) → NeedsToken (require_auth validate_token next)
  unfolding error_response
  require_auth-NeedsToken next r s = go (require_auth-Guards validate_token next r s)
    where
      go :
          Guards validate_token next r s (require_auth validate_token next r s)
          → ((claims : Claims) × Authorized validate_token r s claims)
            ⊎ (((require_auth validate_token next r s).0.status ≡ 401)
                × ((require_auth validate_token next r s).1 ≡ s))
      go (Guards.admitted claims a q) = inl (claims, a)
      go (Guards.refused message none_valid q) = inr (ground arith, ground arith)

  routes-IsProtected : (h : Handlers S) → All IsProtected (routes validate_token h)
  unfolding routes
  routes-IsProtected h = (
    inl (inl refl),
    (
      inl (inr (inl refl)),
      (
        inr (require_auth-NeedsToken h.get_me),
        (
          inr (require_auth-NeedsToken h.list_api_keys),
          (
            inr (require_auth-NeedsToken h.update_api_key),
            (
              inr (require_auth-NeedsToken h.delete_api_key),
              (
                inr (require_auth-NeedsToken h.list_strategies),
                (
                  inr (require_auth-NeedsToken h.create_strategy),
                  (
                    inr (require_auth-NeedsToken h.delete_strategy),
                    (
                      inr (require_auth-NeedsToken h.toggle_strategy),
                      (
                        inr (require_auth-NeedsToken h.list_alerts),
                        (
                          inr (require_auth-NeedsToken h.mark_alert_read),
                          (
                            inr (require_auth-NeedsToken h.alert_stream),
                            (inl (inr (inr refl)), tt),
                          ),
                        ),
                      ),
                    ),
                  ),
                ),
              ),
            ),
          ),
        ),
      ),
    ),
  )

  pub find_route-All :
      (P : Route S → Type 0) (method path : Text) (rs : List (Route S)) (found : Route S)
      → All P rs
      → find_route method path rs ≡ some found
      → P found × (found.path ≡ path)
  unfolding find_route
  find_route-All P method path [] found h e = absurd (ground arith)
  find_route-All P method path (r ∷ rs) found h e =
      elim (Bool-cases (text_eq r.path path && answers r.method method)) [
        | inl hit ↦
            let same : r ≡ found = ground arith in
            (subst P same h.0, ground (arith, text_eq_iff r.path path))
        | inr miss ↦ find_route-All P method path rs found h.1 (ground arith)
      ]

  serve_mux-Protected :
      (h : Handlers S) (r : Request) (s : S)
      → ¬ IsPublic r.path
      → let (response, s') = serve_mux (routes validate_token h) r s in
        ((claims : Claims) × Authorized validate_token r s claims)
        ⊎ ((s' ≡ s) × Refuses response.status)
  unfolding serve_mux
  serve_mux-Protected h r s private =
      let found = find_route r.method r.path (routes validate_token h) in
      elim (Option-cases found) [
        | inl missing ↦ elim (Bool-cases (known_path r.path (routes validate_token h))) [
          | inl known ↦ inr (ground arith, inr (inr (ground arith)))
          | inr unknown ↦ inr (ground arith, inr (inl (ground arith)))
        ]
        | inr (route, there) ↦
            let (safe, same) =
              find_route-All IsProtected r.method r.path (routes validate_token h) route
                (routes-IsProtected h) there in
            elim safe [
              | inl open_path ↦ absurd (private (subst IsPublic same open_path))
              | inr needs ↦ elim (needs r s) [
                | inl token ↦ inl token
                | inr (status, kept) ↦ inr (ground arith, inl (ground arith))
              ]
            ]
      ]

  -- A request for any path but registration, login and the metrics carries a valid token, or it leaves
  -- the state as it is and is refused with 401, 404 or 405, unless its method is OPTIONS, which is
  -- answered without a handler.
  pub serve-Protected :
      (frontend_url : Text) (h : Handlers S) (r : Request) (s : S)
      → ¬ IsPublic r.path
      → let (reply, s') = serve frontend_url validate_token h r s in
        ((claims : Claims) × Authorized validate_token r s claims)
        ⊎ ((s' ≡ s) × ((r.method ≡ codes "OPTIONS") ⊎ Refuses reply.response.status))
  unfolding serve cors_middleware
  serve-Protected frontend_url h r s private =
      elim (Bool-cases (text_eq r.method (codes "OPTIONS"))) [
        | inl options ↦ inr (ground arith, inl ((text_eq_iff r.method (codes "OPTIONS")).0 options))
        | inr other ↦ elim (serve_mux-Protected h r s private) [
          | inl token ↦ inl token
          | inr (kept, refused) ↦ inr (ground arith, inr (rw other refused))
        ]
      ]

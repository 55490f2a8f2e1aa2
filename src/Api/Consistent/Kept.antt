-- ===== src/Api/Consistent/Kept.antt =====
-- internal/api/{server,middleware}.go: what every handler keeps, every request keeps.
use signalstream.Common.{
  ◌≡◌, inl, inr, some, Result, Text, codes, text_eq, All, Bool-cases, Option-cases, arith,
}
use signalstream.Api.{Claims, Request, Handler, require_auth}
use signalstream.Api.Guard.{Guards, require_auth-Guards}
use signalstream.Api.Server.{Handlers, Route, routes, find_route, serve_mux, cors_middleware, serve}
use signalstream.Api.Server.Protected.{find_route-All}

module _ {S : Type 0} (P : S → Type 0) where
  abbrev pub Keeps : Handler S → Type 0
  Keeps h = (r : Request) (s : S) → P s → P (h r s).1

  pub record AllKeep (h : Handlers S) : Type 0 where
    pub register : Keeps h.register
    pub login : Keeps h.login
    pub get_me : Keeps h.get_me
    pub list_api_keys : Keeps h.list_api_keys
    pub update_api_key : Keeps h.update_api_key
    pub delete_api_key : Keeps h.delete_api_key
    pub list_strategies : Keeps h.list_strategies
    pub create_strategy : Keeps h.create_strategy
    pub delete_strategy : Keeps h.delete_strategy
    pub toggle_strategy : Keeps h.toggle_strategy
    pub list_alerts : Keeps h.list_alerts
    pub mark_alert_read : Keeps h.mark_alert_read
    pub alert_stream : Keeps h.alert_stream
    pub metrics : Keeps h.metrics

  module _ (validate_token : Text → S → Result Claims) where
    require_auth-Keeps : (next : Handler S) → Keeps next → Keeps (require_auth validate_token next)
    require_auth-Keeps next k r s p = go (require_auth-Guards validate_token next r s)
      where
        go :
            Guards validate_token next r s (require_auth validate_token next r s)
            → P (require_auth validate_token next r s).1
        go (Guards.refused message none_valid q) = rw q p
        go (Guards.admitted claims a q) = rw q (k (record r { claims = some claims }) s p)

    routes-Keeps :
        (h : Handlers S)
        → AllKeep h
        → All (λ (route : Route S). Keeps route.handler) (routes validate_token h)
    unfolding routes
    routes-Keeps h k = (
      k.register,
      (
        k.login,
        (
          require_auth-Keeps h.get_me k.get_me,
          (
            require_auth-Keeps h.list_api_keys k.list_api_keys,
            (
              require_auth-Keeps h.update_api_key k.update_api_key,
              (
                require_auth-Keeps h.delete_api_key k.delete_api_key,
                (
                  require_auth-Keeps h.list_strategies k.list_strategies,
                  (
                    require_auth-Keeps h.create_strategy k.create_strategy,
                    (
                      require_auth-Keeps h.delete_strategy k.delete_strategy,
                      (
                        require_auth-Keeps h.toggle_strategy k.toggle_strategy,
                        (
                          require_auth-Keeps h.list_alerts k.list_alerts,
                          (
                            require_auth-Keeps h.mark_alert_read k.mark_alert_read,
                            (require_auth-Keeps h.alert_stream k.alert_stream, (k.metrics, tt)),
                          ),
                        ),
                      ),
                    ),
                  ),
                ),
              ),
            ),
          ),
        ),
      ),
    )

    serve_mux-Keeps : (h : Handlers S) → AllKeep h → Keeps (serve_mux (routes validate_token h))
    unfolding serve_mux
    serve_mux-Keeps h k r s p =
        elim (Option-cases (find_route r.method r.path (routes validate_token h))) [
          | inl missing ↦
              let same : (serve_mux (routes validate_token h) r s).1 ≡ s = ground arith in rw same p
          | inr (route, there) ↦
              let found =
                find_route-All validate_token (λ (route : Route S). Keeps route.handler) r.method
                  r.path (routes validate_token h) route (routes-Keeps h k) there in
              let same : (serve_mux (routes validate_token h) r s).1 ≡ (route.handler r s).1 =
                ground arith in
              rw same (found.0 r s p)
        ]

    pub serve-keeps :
        (frontend_url : Text) (h : Handlers S)
        → AllKeep h
        → (r : Request) (s : S) → P s
        → P (serve frontend_url validate_token h r s).1
    unfolding serve cors_middleware
    serve-keeps frontend_url h k r s p = elim (Bool-cases (text_eq r.method (codes "OPTIONS"))) [
      | inl options ↦ rw options p
      | inr other ↦ rw other (serve_mux-Keeps h k r s p)
    ]

-- ===== src/Api/Consistent/Listings.antt =====
-- internal/api/{auth,strategies,alerts}.go: the handlers that create a strategy or show what belongs to
-- the user keep the promises of the tables' keys.
use signalstream.Api.Consistent.Handlers.{KeepsKeys}
use signalstream.Common.{
  ◌≡◌, ◌≢◌, inl, inr, ◌||◌, codes, is_empty, Bool-cases, Option-cases, Result-cases, arith,
}
use signalstream.Common.Int.{pos}
use signalstream.Database.Statements.{next_fault, Db}
use signalstream.Database.Users.{get_user_by_id}
use signalstream.Database.Strategies.{create_strategy, get_user_strategies}
use signalstream.Database.Alerts.{get_user_alerts}
use signalstream.Database.Consistent.{IsConsistent}
use signalstream.Database.Consistent.Strategies.{create_strategy-IsConsistent}
use signalstream.Database.Consistent.Queries.{
  get_user_by_id-IsConsistent, get_user_strategies-IsConsistent, get_user_alerts-IsConsistent,
}
use signalstream.Api.{Claims, Request, Response}
use signalstream.Api.Listings.{
  Service, with_claims, number_parameter, requested_strategy, handle_get_me, handle_list_strategies,
  handle_create_strategy, handle_list_alerts,
}

module _ (s : Service) where
  with_claims-KeepsKeys :
      (run : Claims → Request → Db → Response × Db)
      → ((claims : Claims) (r : Request) (db : Db)
          → IsConsistent db
          → IsConsistent (run claims r db).1)
      → KeepsKeys (with_claims run)
  unfolding with_claims
  with_claims-KeepsKeys run keeps r db c = elim (Option-cases r.claims) [
    | inl nobody ↦ let same : (with_claims run r db).1 ≡ db = ground arith in rw same c
    | inr (claims, q) ↦
        let same : with_claims run r db ≡ run claims r db = ground arith in
        rw same (keeps claims r db c)
  ]

  pub handle_get_me-KeepsKeys : KeepsKeys (handle_get_me s)
  unfolding handle_get_me
  handle_get_me-KeepsKeys = with_claims-KeepsKeys _ λ claims r db c.
      let found = get_user_by_id claims.user_id db in
      let kept = get_user_by_id-IsConsistent db c claims.user_id in
      elim (Result-cases found.0) [
        | inr (e, bad) ↦ rw bad kept
        | inl (row, fine) ↦ elim (Option-cases row) [
          | inl nobody ↦ rw (fine, nobody) kept
          | inr (user, there) ↦ rw (fine, there) kept
        ]
      ]

  pub handle_list_strategies-KeepsKeys : KeepsKeys (handle_list_strategies s)
  unfolding handle_list_strategies
  handle_list_strategies-KeepsKeys = with_claims-KeepsKeys _ λ claims r db c.
      let rows = get_user_strategies s.pg claims.user_id db in
      let kept = get_user_strategies-IsConsistent db c s.pg claims.user_id in
      elim (Result-cases rows.0) [
        | inr (e, bad) ↦ rw bad kept
        | inl (strategies, fine) ↦ rw fine kept
      ]

  pub handle_list_alerts-KeepsKeys : KeepsKeys (handle_list_alerts s)
  unfolding handle_list_alerts number_parameter
  handle_list_alerts-KeepsKeys = with_claims-KeepsKeys _ λ claims r db c.
      let limit = number_parameter (r.parameter (codes "limit")) (pos 50) in
      let offset = number_parameter (r.parameter (codes "offset")) (pos 0) in
      let rows = get_user_alerts s.pg claims.user_id limit offset db in
      let kept = get_user_alerts-IsConsistent db c s.pg claims.user_id limit offset in
      elim (Result-cases rows.0) [ inr (e, bad) ↦ rw bad kept | inl (alerts, fine) ↦ rw fine kept ]

  pub handle_create_strategy-KeepsKeys :
      ((db : Db) → s.pg.new_uuid db ≢ 0) → KeepsKeys (handle_create_strategy s)
  unfolding handle_create_strategy
  handle_create_strategy-KeepsKeys nonzero = with_claims-KeepsKeys _ λ claims r db c.
      elim (Result-cases (s.decode r.body)) [
        | inr (e, bad) ↦ rw bad c
        | inl (req, decoded) ↦ elim (Bool-cases (is_empty req.name || is_empty req.query)) [
          | inl missing ↦ rw (decoded, missing) c
          | inr there ↦
              let wanted = requested_strategy s claims req in
              let made = create_strategy s.pg wanted db in
              let kept =
                create_strategy-IsConsistent s.pg wanted db (nonzero (next_fault db).1) c in
              elim (Result-cases made.0) [
                | inr (e, refused) ↦ rw (decoded, there, refused) kept
                | inl (strategy, fine) ↦ rw (decoded, there, fine) kept
              ]
        ]
      ]

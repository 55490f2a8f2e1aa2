-- ===== src/Api/Listings.antt =====
-- internal/api/{auth,strategies,alerts}.go: the handlers that show what belongs to the user, and the
-- creation of a strategy. The parameters are the database, the decoding of the JSON body, and
-- `uuid.UUID.String`.
pub mod Paging
mod Tests
use signalstream.Common.{
  ℕ, Bool, ◌||◌, List, [], ◌∷◌, Option, none, some, Result, ok, err, Text, codes, is_empty, atoi,
  if◌then◌else◌,
}
use signalstream.Common.Int.{ℤ, pos}
use signalstream.Database.{Uuid, User, Strategy, Float64}
use signalstream.Database.Statements.{Db}
use signalstream.Database.Postgres.{Postgres}
use signalstream.Database.Users.{get_user_by_id}
use signalstream.Database.Strategies.{create_strategy, get_user_strategies}
use signalstream.Database.Alerts.{get_user_alerts}
use signalstream.Api.{
  Claims, me_body, strategy_body, strategies_body, alerts_body, Response, Request, Handler,
  error_response,
}

-- `strategyRequest`
pub record StrategyRequest : Type 0 where
  pub name : Text
  pub description : Text
  pub query : Text
  pub source : List Text
  pub tickers : List Text
  pub similarity_threshold : Float64
  pub is_active : Bool

pub record Service : Type 1 where
  pub pg : Postgres
  pub decode : Text → Result StrategyRequest
  pub uuid_string : Uuid → Text

-- The head of a handler that needs claims only.
unfoldable pub with_claims : (Claims → Request → Db → Response × Db) → Handler Db
with_claims run r db = elim r.claims [
  | none ↦ (error_response 401 (codes "unauthorized"), db)
  | some claims ↦ run claims r db
]

-- A number in the query, or else the default.
unfoldable pub number_parameter : Text → ℤ → ℤ
number_parameter text default =
    let parsed = atoi text in
    if is_empty text then default else elim parsed [ none ↦ default | some val ↦ val ]

module _ (s : Service) where
  unfoldable pub handle_get_me : Handler Db
  handle_get_me = with_claims λ claims r db.
      let (found, db') = get_user_by_id claims.user_id db in
      elim found [
        | err e ↦ (error_response 500 (codes "database error"), db')
        | ok user ↦ elim user [
          | none ↦ (error_response 404 (codes "user not found"), db')
          | some u ↦ (
            record { status = 200; body = me_body (s.uuid_string u.id) u.email u.created_at },
            db',
          )
        ]
      ]

  unfoldable pub handle_list_strategies : Handler Db
  handle_list_strategies = with_claims λ claims r db.
      let (rows, db') = get_user_strategies s.pg claims.user_id db in
      elim rows [
        | err e ↦ (error_response 500 (codes "database error"), db')
        | ok strategies ↦ (record { status = 200; body = strategies_body strategies }, db')
      ]

  -- The strategy that `handleCreateStrategy` makes of the request.
  unfoldable pub requested_strategy : Claims → StrategyRequest → Strategy
  requested_strategy claims req = record {
    id = 0;
    user_id = claims.user_id;
    name = req.name;
    description = req.description;
    query = req.query;
    source = req.source;
    tickers = req.tickers;
    similarity_threshold = req.similarity_threshold;
    is_active = req.is_active;
    created_at = 0;
    updated_at = 0;
    owner_email = [];
  }

  unfoldable pub handle_create_strategy : Handler Db
  handle_create_strategy = with_claims λ claims r db. elim (s.decode r.body) [
    | err e ↦ (error_response 400 (codes "invalid request body"), db)
    | ok req ↦
        if is_empty req.name || is_empty req.query
        then (error_response 400 (codes "name and query are required"), db)
        else let (created, db') = create_strategy s.pg (requested_strategy claims req) db in
          elim created [
            | err e ↦ (error_response 500 (codes "failed to create strategy"), db')
            | ok strategy ↦ (record { status = 201; body = strategy_body strategy }, db')
          ]
  ]

  unfoldable pub handle_list_alerts : Handler Db
  handle_list_alerts = with_claims λ claims r db.
      let limit = number_parameter (r.parameter (codes "limit")) (pos 50) in
      let offset = number_parameter (r.parameter (codes "offset")) (pos 0) in
      let (rows, db') = get_user_alerts s.pg claims.user_id limit offset db in
      elim rows [
        | err e ↦ (error_response 500 (codes "database error"), db')
        | ok alerts ↦ (record { status = 200; body = alerts_body alerts }, db')
      ]

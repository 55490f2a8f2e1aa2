-- ===== src/Api/Handlers.antt =====
-- internal/api/{strategies,alerts}.go: the handlers that change one row of the user. The parameter is
-- `uuid.Parse`.
pub mod Isolation
pub mod Toggle
pub mod Race
use signalstream.Common.{
  Bool, not, List, [], Option, none, some, Failure, Result, ok, err, Text, codes, is_empty,
  if◌then◌else◌,
}
use signalstream.Database.{Uuid, Strategy}
use signalstream.Database.Statements.{
  Db, get_strategy, update_strategy, delete_strategy, mark_alert_read,
}
use signalstream.Api.{
  Claims, Body, status_body, strategy_body, Response, Request, Handler, error_response,
}

-- The head of these handlers: the claims, and the parameter `id`.
unfoldable pub with_id :
    (Text → Result Uuid) → Text → (Uuid → Claims → Db → Response × Db) → Handler Db
with_id parse_uuid invalid run r db = elim r.claims [
  | none ↦ (error_response 401 (codes "unauthorized"), db)
  | some claims ↦
      if is_empty (r.parameter (codes "id"))
      then (error_response 400 (codes "id is required"), db)
      else elim (parse_uuid (r.parameter (codes "id"))) [
        | err e ↦ (error_response 400 invalid, db)
        | ok id ↦ run id claims db
      ]
]

unfoldable pub run_delete : Uuid → Claims → Db → Response × Db
run_delete id claims db =
    let (failure, db') = delete_strategy id claims.user_id db in
    elim failure [
      | some e ↦ (error_response 500 (codes "failed to delete strategy"), db')
      | none ↦ (record { status = 200; body = status_body (codes "deleted") }, db')
    ]

unfoldable pub run_toggle : Uuid → Claims → Db → Response × Db
run_toggle id claims db =
    let (found, db₁) = get_strategy id claims.user_id db in
    elim found [
      | err e ↦ (error_response 500 (codes "database error"), db₁)
      | ok row ↦ elim row [
        | none ↦ (error_response 404 (codes "strategy not found"), db₁)
        | some strategy ↦
            let (updated, db₂) =
              update_strategy (record strategy { is_active = not strategy.is_active }) db₁ in
            elim updated [
              | err e ↦ (error_response 500 (codes "failed to update strategy"), db₂)
              | ok s ↦ (record { status = 200; body = strategy_body s }, db₂)
            ]
      ]
    ]

unfoldable pub run_mark_read : Uuid → Claims → Db → Response × Db
run_mark_read id claims db =
    let (failure, db') = mark_alert_read id claims.user_id db in
    elim failure [
      | some e ↦ (error_response 500 (codes "failed to mark alert as read"), db')
      | none ↦ (record { status = 200; body = status_body (codes "ok") }, db')
    ]

module _ (parse_uuid : Text → Result Uuid) where
  unfoldable pub handle_delete_strategy : Handler Db
  handle_delete_strategy = with_id parse_uuid (codes "invalid strategy id") run_delete

  unfoldable pub handle_toggle_strategy : Handler Db
  handle_toggle_strategy = with_id parse_uuid (codes "invalid strategy id") run_toggle

  unfoldable pub handle_mark_alert_read : Handler Db
  handle_mark_alert_read = with_id parse_uuid (codes "invalid alert id") run_mark_read

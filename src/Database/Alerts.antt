-- ===== src/Database/Alerts.antt =====
-- internal/database/alerts.go: the insertion of an alert, and the pages of a user's alerts. A connection
-- that breaks between two rows is left out.
pub mod Pages
pub mod Columns
use signalstream.Common.{
  Bool, true, false, ◌||◌, not, List, [], ◌∷◌, ◌++◌, some, none, Failure, Result, ok, err, Text,
  codes, take, drop, is_empty, ◌==◌, if◌then◌else◌,
}
use signalstream.Common.Int.{ℤ, pos, negsuc, ltb_ℤ, pos_part}
use signalstream.Database.{Uuid, Alert}
use signalstream.Database.Schema.{has_columns}
use signalstream.Database.Statements.{Db, next_fault, select_rows}
use signalstream.Database.Postgres.{Postgres}

-- The columns that `CreateAlert` names.
abbrev pub inserted_columns : List Text
inserted_columns =
    codes "user_id"
    ∷ codes "strategy_id"
    ∷ codes "event_id"
    ∷ codes "title"
    ∷ codes "content"
    ∷ codes "url"
    ∷ codes "similarity_score"
    ∷ codes "is_read"
    ∷ []

-- The columns that `GetUserAlerts` names.
abbrev pub selected_columns : List Text
selected_columns = codes "id" ∷ (inserted_columns ++ codes "created_at" ∷ [])

-- Whether a row refers to a missing user or strategy, or repeats an id.
unfoldable pub refused_alert : Uuid → Alert → Db → Bool
refused_alert id alert db =
    is_empty (select_rows (λ row. row.id == alert.user_id) db.users)
    || (is_empty (select_rows (λ row. row.id == alert.strategy_id) db.strategies)
        || not (is_empty (select_rows (λ row. row.id == id) db.alerts)))

module _ (pg : Postgres) where
  -- The row that the statement inserts.
  unfoldable pub new_alert : Alert → Db → Alert
  new_alert alert db = record alert { id = pg.new_uuid db; created_at = db.clock }

  -- `CreateAlert`, which scans the new id and time into the alert.
  unfoldable pub create_alert : Alert → Db → Result Alert × Db
  create_alert alert db =
      let (fault, db') = next_fault db in
      elim fault [
        | some e ↦ (err e, db')
        | none ↦
            if not (has_columns (codes "alerts") inserted_columns db'.schema)
            then (err pg.undefined_column, db')
            else if refused_alert (pg.new_uuid db') alert db'
            then (err pg.violation, db')
            else (
              ok (new_alert alert db'),
              record db' { alerts = db'.alerts ++ new_alert alert db' ∷ [] },
            )
      ]

  -- The alerts of a user, the newest first.
  unfoldable pub user_alerts : Uuid → Db → List Alert
  user_alerts user db =
      pg.newest_first (λ row. row.created_at) (select_rows (λ row. row.user_id == user) db.alerts)

  -- `GetUserAlerts`; a negative limit or offset is an error.
  unfoldable pub get_user_alerts : Uuid → ℤ → ℤ → Db → Result (List Alert) × Db
  get_user_alerts user limit offset db =
      let (fault, db') = next_fault db in
      elim fault [
        | some e ↦ (err e, db')
        | none ↦
            if not (has_columns (codes "alerts") selected_columns db'.schema)
            then (err pg.undefined_column, db')
            else if ltb_ℤ limit (pos 0) || ltb_ℤ offset (pos 0)
            then (err pg.negative_limit, db')
            else (ok (take (pos_part limit) (drop (pos_part offset) (user_alerts user db'))), db')
      ]

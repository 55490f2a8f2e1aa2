-- ===== src/Database/Statements.antt =====
-- internal/database/{strategies,alerts}.go: the statements on one row of a user. A table is a list of
-- rows; `faults` tells for each statement to come whether the driver fails it, and is empty where it
-- fails none.
pub mod Faults
pub mod Rows
pub mod Ownership
use signalstream.Common.{
  ℕ, zero, suc, Bool, true, false, not, ◌&&◌, List, [], ◌∷◌, Option, none, some, Failure, Err,
  Result, ok, err, plain, codes, length, is_empty, ◌==◌, if◌then◌else◌,
}
use signalstream.Database.{Uuid, Strategy, Alert, User, ApiKey}
use signalstream.Database.Schema.{Schema}

-- `owner_email` is no column: it is empty in a row of `strategies`.
pub record Db : Type 0 where
  pub strategies : List Strategy
  pub alerts : List Alert
  pub users : List User
  pub api_keys : List ApiKey
  pub clock : ℕ
  pub faults : List Failure
  pub schema : Schema

-- The driver's answer to the next statement.
unfoldable pub next_fault : Db → Failure × Db
next_fault db = elim db.faults [ [] ↦ (none, db) | f ∷ fs ↦ (f, record db { faults = fs }) ]

-- `sql.ErrNoRows`
abbrev pub no_rows : Err
no_rows = plain (codes "sql: no rows in result set")

-- `WHERE id = … AND user_id = …`
unfoldable pub strategy_selected : Uuid → Uuid → Strategy → Bool
strategy_selected id user row = (row.id == id) && (row.user_id == user)

unfoldable pub alert_selected : Uuid → Uuid → Alert → Bool
alert_selected id user row = (row.id == id) && (row.user_id == user)

module _ {A : Type 0} (selected : A → Bool) where
  unfoldable pub select_rows : List A → List A
  select_rows [] = []
  select_rows (row ∷ rows) =
      let rest = select_rows rows in if selected row then row ∷ rest else rest

  unfoldable pub update_rows : (A → A) → List A → List A
  update_rows change [] = []
  update_rows change (row ∷ rows) =
      (if selected row then change row else row) ∷ update_rows change rows

  unfoldable pub delete_rows : List A → List A
  delete_rows [] = []
  delete_rows (row ∷ rows) =
      let rest = delete_rows rows in if selected row then rest else row ∷ rest

-- `GetStrategy`: a missing row is a nil strategy without an error.
unfoldable pub get_strategy : Uuid → Uuid → Db → Result (Option Strategy) × Db
get_strategy id user db =
    let (fault, db') = next_fault db in
    elim fault [
      | some e ↦ (err e, db')
      | none ↦ elim (select_rows (strategy_selected id user) db'.strategies) [
        | [] ↦ (ok none, db')
        | row ∷ rows ↦ (ok (some row), db')
      ]
    ]

-- What `UpdateStrategy` sets, at the time `now`.
unfoldable pub set_strategy : Strategy → ℕ → Strategy → Strategy
set_strategy s now row = record row {
  name = s.name;
  description = s.description;
  query = s.query;
  source = s.source;
  tickers = s.tickers;
  similarity_threshold = s.similarity_threshold;
  is_active = s.is_active;
  updated_at = now;
}

-- `UpdateStrategy` scans the new `updated_at`, which fails if no row was updated.
unfoldable pub update_strategy : Strategy → Db → Result Strategy × Db
update_strategy s db =
    let (fault, db') = next_fault db in
    let selected = strategy_selected s.id s.user_id in
    elim fault [
      | some e ↦ (err e, db')
      | none ↦ elim (select_rows selected db'.strategies) [
        | [] ↦ (err no_rows, db')
        | row ∷ rows ↦ (
          ok (record s { updated_at = db'.clock }),
          record db' {
            strategies = update_rows selected (set_strategy s db'.clock) db'.strategies;
          },
        )
      ]
    ]

-- Whether an alert refers to one of the rows.
unfoldable pub refers_to : List Strategy → Alert → Bool
refers_to rows alert = not (is_empty (select_rows (λ row. row.id == alert.strategy_id) rows))

-- `ON DELETE SET NULL`; a `uuid.UUID` that scans NULL is zero.
unfoldable pub forget_strategy : Alert → Alert
forget_strategy alert = record alert { strategy_id = 0 }

-- `DeleteStrategy`, with what the foreign key of `alerts` does.
unfoldable pub delete_strategy : Uuid → Uuid → Db → Failure × Db
delete_strategy id user db =
    let (fault, db') = next_fault db in
    let selected = strategy_selected id user in
    let deleted = select_rows selected db'.strategies in
    elim fault [
      | some e ↦ (some e, db')
      | none ↦ (
        (if length deleted == 0 then some no_rows else none),
        record db' {
          strategies = delete_rows selected db'.strategies;
          alerts = update_rows (refers_to deleted) forget_strategy db'.alerts;
        },
      )
    ]

-- `MarkAlertRead`
unfoldable pub mark_alert_read : Uuid → Uuid → Db → Failure × Db
mark_alert_read id user db =
    let (fault, db') = next_fault db in
    let selected = alert_selected id user in
    elim fault [
      | some e ↦ (some e, db')
      | none ↦ (
        (if length (select_rows selected db'.alerts) == 0 then some no_rows else none),
        record db' {
          alerts = update_rows selected (λ row. record row { is_read = true }) db'.alerts;
        },
      )
    ]

-- ===== src/Database/Alerts/Columns.antt =====
-- internal/database/alerts.go with internal/database/migrations: the columns that the statements on
-- alerts name, and those that the migrations create.
use signalstream.Common.{
  ◌≡◌, refl, false, List, [], ◌∷◌, none, some, Err, ok, err, Text, codes, text_eq, Option-cases,
  Result-cases, inl, inr, arith,
}
use signalstream.Common.Int.{ℤ}
use signalstream.Database.{Uuid, Alert}
use signalstream.Database.Schema.{
  Schema, Statement, create_table, columns_of, names, has_column, has_columns, run_statement, exec,
  run_entries, migrate,
}
use signalstream.Database.Schema.Embedded.{embedded, initial_schema, create_alerts}
use signalstream.Database.Schema.Repeated.{exec-Extends}
use signalstream.Database.Statements.{Db}
use signalstream.Database.Statements.Faults.{next_fault-quiet}
use signalstream.Database.Postgres.{Postgres}
use signalstream.Database.Alerts.{create_alert, get_user_alerts}

-- The columns that the first migration gives the table.
abbrev first_columns : List Text
first_columns =
    codes "id"
    ∷ codes "user_id"
    ∷ codes "strategy_id"
    ∷ codes "event_id"
    ∷ codes "title"
    ∷ codes "content"
    ∷ codes "is_read"
    ∷ codes "created_at"
    ∷ []

module _ (sql_error : Statement → Err) where
  other_table :
      (name : Text) (columns : List Text) (s s' : Schema)
      → text_eq name (codes "alerts") ≡ false
      → columns_of (codes "alerts") s.tables ≡ none
      → run_statement sql_error (create_table name columns) s ≡ ok s'
      → columns_of (codes "alerts") s'.tables ≡ none
  unfolding run_statement columns_of
  other_table name columns s s' other missing e = elim (Option-cases (columns_of name s.tables)) [
    | inr (old, there) ↦ ground arith
    | inl new ↦ ground arith
  ]

  alerts_table :
      (columns : List Text) (s s' : Schema)
      → columns_of (codes "alerts") s.tables ≡ none
      → run_statement sql_error (create_table (codes "alerts") columns) s ≡ ok s'
      → columns_of (codes "alerts") s'.tables ≡ some columns
  unfolding run_statement columns_of text_eq
  alerts_table columns s s' missing e = ground arith

  exec-step :
      (st : Statement) (sts : List Statement) (s s' : Schema)
      → exec sql_error (st ∷ sts) s ≡ ok s'
      → (s₁ : Schema) × (run_statement sql_error st s ≡ ok s₁) × (exec sql_error sts s₁ ≡ ok s')
  unfolding exec
  exec-step st sts s s' e = elim (Result-cases (run_statement sql_error st s)) [
    | inr (failure, failed) ↦ absurd (ground arith)
    | inl (s₁, run) ↦ (s₁, run, ground arith)
  ]

  initial_columns :
      (s s' : Schema)
      → columns_of (codes "alerts") s.tables ≡ none
      → exec sql_error initial_schema s ≡ ok s'
      → columns_of (codes "alerts") s'.tables ≡ some first_columns
  unfolding text_eq
  initial_columns s s' missing e =
      let (a, ra, ea) = exec-step _ _ s s' e in
      let (b, rb, eb) = exec-step _ _ a s' ea in
      let (c, rc, ec) = exec-step _ _ b s' eb in
      let (d, rd, ed) = exec-step _ _ c s' ec in
      let at_a = other_table _ _ s a refl missing ra in
      let at_b = other_table _ _ a b refl at_a rb in
      let at_c = other_table _ _ b c refl at_b rc in
      (exec-Extends sql_error _ d s' ed).0.tables (codes "alerts") first_columns
        (alerts_table _ c d at_c rd)

  migrated_columns :
      (s s' : Schema)
      → columns_of (codes "alerts") s.tables ≡ none
      → migrate sql_error (ok embedded) s ≡ (none, s')
      → columns_of (codes "alerts") s'.tables ≡ some first_columns
  unfolding migrate run_entries
  migrated_columns s s' missing e = elim (Result-cases (exec sql_error initial_schema s)) [
    | inr (failure, failed) ↦ absurd (ground arith)
    | inl (s₁, first) ↦ elim (Result-cases (exec sql_error create_alerts s₁)) [
      | inr (failure, failed) ↦ absurd (ground arith)
      | inl (s₂, second) ↦
          let kept =
            (exec-Extends sql_error create_alerts s₁ s₂ second).0.tables (codes "alerts")
              first_columns (initial_columns s s₁ missing first) in
          let same : s₂ ≡ s' = ground arith in rw (← same) kept
    ]
  ]

  -- No alert can be stored or listed in a database that the program has set up: if the migrations went
  -- through on a database without a table of alerts, then `CreateAlert` and `GetUserAlerts` fail with an
  -- undefined column as long as the driver fails neither, and the database stays as it is.
  pub migrated-undefined_column :
      (pg : Postgres) (s : Schema) (db : Db) (alert : Alert) (user : Uuid) (limit offset : ℤ)
      → columns_of (codes "alerts") s.tables ≡ none
      → migrate sql_error (ok embedded) s ≡ (none, db.schema)
      → db.faults ≡ []
      → (create_alert pg alert db ≡ (err pg.undefined_column, db))
        × (get_user_alerts pg user limit offset db ≡ (err pg.undefined_column, db))
  unfolding create_alert get_user_alerts has_columns has_column names text_eq
  migrated-undefined_column pg s db alert user limit offset missing e quiet =
      let columns = migrated_columns s db.schema missing e in
      let q = next_fault-quiet db quiet in (ground (arith, columns, q), ground (arith, columns, q))

-- ===== src/Database/Consistent/Kept.antt =====
-- internal/database: what each statement leaves in the table of strategies.
use signalstream.Common.{
  ◌≡◌, ◌⊎◌, refl, sym, subst, inl, inr, List, [], ◌∷◌, ◌++◌, Text, All, Bool-cases, Option-cases,
  none, arith,
}
use signalstream.Database.{Uuid, Strategy, Alert}
use signalstream.Database.Postgres.{Postgres}
use signalstream.Database.Statements.{
  Db, next_fault, update_strategy, set_strategy, strategy_selected, select_rows, update_rows,
  delete_rows, delete_strategy, mark_alert_read,
}
use signalstream.Database.Users.{create_user}
use signalstream.Database.Keys.{add_api_key, upsert_key, delete_api_key}
use signalstream.Database.Strategies.{create_strategy, new_strategy, refused_strategy}
use signalstream.Database.Alerts.{create_alert}
use signalstream.Database.Consistent.Rows.{All-append, All-delete_rows, All-update_rows}

module _ (pg : Postgres) (db : Db) where
  pub create_user-strategies :
      (email hash : Text) → (create_user pg.new_uuid email hash db).1.strategies ≡ db.strategies
  unfolding create_user next_fault
  create_user-strategies email hash = ground arith

  pub add_api_key-strategies :
      (user : Uuid) (provider key : Text)
      → (add_api_key pg.new_uuid pg.violation user provider key db).1.strategies ≡ db.strategies
  unfolding add_api_key upsert_key next_fault
  add_api_key-strategies user provider key = ground arith

  pub delete_api_key-strategies :
      (user : Uuid) (provider : Text)
      → (delete_api_key user provider db).1.strategies ≡ db.strategies
  unfolding delete_api_key next_fault
  delete_api_key-strategies user provider = ground arith

  pub mark_alert_read-strategies :
      (id user : Uuid) → (mark_alert_read id user db).1.strategies ≡ db.strategies
  unfolding mark_alert_read next_fault
  mark_alert_read-strategies id user = ground arith

  pub create_alert-strategies :
      (alert : Alert) → (create_alert pg alert db).1.strategies ≡ db.strategies
  unfolding create_alert next_fault
  create_alert-strategies alert = ground arith

  pub next_fault-strategies : (next_fault db).1.strategies ≡ db.strategies
  unfolding next_fault
  next_fault-strategies = ground arith

  create_strategy-cases :
      (s : Strategy)
      → ((create_strategy pg s db).1.strategies ≡ (next_fault db).1.strategies)
        ⊎ ((create_strategy pg s db).1.strategies
            ≡ (next_fault db).1.strategies ++ new_strategy pg s (next_fault db).1 ∷ [])
  unfolding create_strategy
  create_strategy-cases s =
      let (fault, db') = next_fault db in
      elim (Option-cases fault) [
        | inr (e, failed) ↦ inl (ground arith)
        | inl fine ↦ elim (Bool-cases (refused_strategy (pg.new_uuid db') s db')) [
          | inl refused ↦ inl (ground arith)
          | inr fits ↦ inr (ground arith)
        ]
      ]

  update_strategy-cases :
      (s : Strategy)
      → ((update_strategy s db).1.strategies ≡ (next_fault db).1.strategies)
        ⊎ ((update_strategy s db).1.strategies
            ≡ update_rows
                (strategy_selected s.id s.user_id)
                (set_strategy s (next_fault db).1.clock)
                (next_fault db).1.strategies)
  unfolding update_strategy
  update_strategy-cases s = elim (Option-cases (next_fault db).0) [
    | inr (e, failed) ↦ inl (ground arith)
    | inl fine ↦
        go fine (select_rows (strategy_selected s.id s.user_id) (next_fault db).1.strategies) refl
  ]
    where
      go :
          (next_fault db).0 ≡ none
          → (found : List Strategy)
          → select_rows (strategy_selected s.id s.user_id) (next_fault db).1.strategies ≡ found
          → ((update_strategy s db).1.strategies ≡ (next_fault db).1.strategies)
            ⊎ ((update_strategy s db).1.strategies
                ≡ update_rows
                    (strategy_selected s.id s.user_id)
                    (set_strategy s (next_fault db).1.clock)
                    (next_fault db).1.strategies)
      go fine [] q = inl (ground arith)
      go fine (row ∷ rows) q = inr (ground arith)

  delete_strategy-cases :
      (id user : Uuid)
      → ((delete_strategy id user db).1.strategies ≡ (next_fault db).1.strategies)
        ⊎ ((delete_strategy id user db).1.strategies
            ≡ delete_rows (strategy_selected id user) (next_fault db).1.strategies)
  unfolding delete_strategy
  delete_strategy-cases id user = elim (Option-cases (next_fault db).0) [
    | inr (e, failed) ↦ inl (ground arith)
    | inl fine ↦ inr (ground arith)
  ]

  -- What holds of all strategies holds of those that a statement leaves.
  module _ (P : Strategy → Type 0) (h : All P db.strategies) where
    read : All P (next_fault db).1.strategies
    read = subst (All P) (sym next_fault-strategies) h

    pub create_strategy-All :
        (s : Strategy)
        → P (new_strategy pg s (next_fault db).1)
        → All P (create_strategy pg s db).1.strategies
    create_strategy-All s p = elim (create_strategy-cases s) [
      | inl same ↦ rw same read
      | inr more ↦ rw more (All-append P (next_fault db).1.strategies _ read p)
    ]

    pub update_strategy-All :
        (s : Strategy)
        → ((row : Strategy) → P row → P (set_strategy s (next_fault db).1.clock row))
        → All P (update_strategy s db).1.strategies
    update_strategy-All s keeps = elim (update_strategy-cases s) [
      | inl same ↦ rw same read
      | inr changed ↦ rw changed (
          All-update_rows P P (strategy_selected s.id s.user_id)
            (set_strategy s (next_fault db).1.clock) (λ row _. keeps row) (λ row _ p. p)
            (next_fault db).1.strategies read)
    ]

    pub delete_strategy-All : (id user : Uuid) → All P (delete_strategy id user db).1.strategies
    delete_strategy-All id user = elim (delete_strategy-cases id user) [
      | inl same ↦ rw same read
      | inr fewer ↦
          rw fewer (All-delete_rows P (strategy_selected id user) (next_fault db).1.strategies read)
    ]

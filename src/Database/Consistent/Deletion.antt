-- ===== src/Database/Consistent/Deletion.antt =====
-- internal/database/strategies.go: the deletion of a strategy keeps the promises of the keys.
use signalstream.Common.{
  All-In, In-map, ◌≡◌, ◌≢◌, refl, sym, inl, inr, ap, Bool, false, List, map, ◌==◌, In, Bool-cases,
  Option-cases, subst, arith,
}
use signalstream.Database.{Uuid, Strategy, Alert}
use signalstream.Database.Statements.{
  Db, next_fault, strategy_selected, select_rows, update_rows, delete_rows, refers_to,
  forget_strategy, delete_strategy,
}
use signalstream.Database.Consistent.{IsConsistent, RefersToOwn, owned, known_users}
use signalstream.Database.Consistent.Lookups.{next_fault-IsConsistent}
use signalstream.Database.Consistent.Rows.{
  All-delete_rows, All-update_rows, none_selected, In-delete_rows, In-selected, In-of_map,
  Distinct-delete_rows, Distinct-update_rows,
}

-- An alert that the deletion leaves alone refers to a row that is left.
kept_alert :
    (selected : Strategy → Bool) (rows : List Strategy) (alert : Alert)
    → refers_to (select_rows selected rows) alert ≡ false
    → RefersToOwn rows alert
    → RefersToOwn (delete_rows selected rows) alert
unfolding refers_to
kept_alert selected rows alert kept (inl null) = inl null
kept_alert selected rows alert kept (inr there) =
    let (s, m, e) = In-of_map owned rows (alert.strategy_id, alert.user_id) there in
    elim (Bool-cases (selected s)) [
      | inl hit ↦
          let others =
            none_selected (λ row. row.id == alert.strategy_id) (select_rows selected rows)
              (ground arith) in
          let other =
            All-In (λ row. (row.id == alert.strategy_id) ≡ false) (select_rows selected rows) s
              others (In-selected selected rows s m hit) in
          absurd (ground (arith, ap (λ (p : Uuid × Uuid). p.0) e))
      | inr miss ↦ inr (
          subst (λ p. In p (map owned (delete_rows selected rows))) (sym e)
            (In-map owned (delete_rows selected rows) s (In-delete_rows selected rows s m miss)))
    ]

remove_strategy-IsConsistent :
    (selected : Strategy → Bool) (db : Db)
    → IsConsistent db
    → IsConsistent (record db {
      strategies = delete_rows selected db.strategies;
      alerts =
          update_rows (refers_to (select_rows selected db.strategies)) forget_strategy db.alerts;
    })
unfolding forget_strategy
remove_strategy-IsConsistent selected db c =
    let hit = refers_to (select_rows selected db.strategies) in
    record {
      user_ids = c.user_ids;
      emails = c.emails;
      strategy_ids = Distinct-delete_rows (λ s. s.id) selected db.strategies c.strategy_ids;
      strategy_nonzero = All-delete_rows (λ s. s.id ≢ 0) selected db.strategies c.strategy_nonzero;
      strategy_users =
          All-delete_rows (λ s. In s.user_id (known_users db.users)) selected db.strategies
            c.strategy_users;
      alert_ids =
          Distinct-update_rows (λ a. a.id) hit forget_strategy (λ a. refl) db.alerts c.alert_ids;
      alert_users =
          All-update_rows (λ a. In a.user_id (known_users db.users))
            (λ a. In a.user_id (known_users db.users)) hit forget_strategy (λ a _ m. m) (λ a _ m. m)
            db.alerts c.alert_users;
      alert_strategies =
          All-update_rows (RefersToOwn db.strategies)
            (RefersToOwn (delete_rows selected db.strategies)) hit forget_strategy
            (λ a _ _. inl refl) (kept_alert selected db.strategies) db.alerts c.alert_strategies;
      key_ids = c.key_ids;
      key_pairs = c.key_pairs;
      key_users = c.key_users;
    }

pub delete_strategy-IsConsistent :
    (id user : Uuid) (db : Db) → IsConsistent db → IsConsistent (delete_strategy id user db).1
unfolding delete_strategy
delete_strategy-IsConsistent id user db c =
    let (fault, db') = next_fault db in
    let kept = next_fault-IsConsistent db c in
    elim (Option-cases fault) [
      | inr (e, failed) ↦
          let same : (delete_strategy id user db).1 ≡ db' = ground arith in rw same kept
      | inl fine ↦
          let selected = strategy_selected id user in
          let after : Db = record db' {
            strategies = delete_rows selected db'.strategies;
            alerts =
                update_rows (refers_to (select_rows selected db'.strategies)) forget_strategy
                  db'.alerts;
          } in
          let same : (delete_strategy id user db).1 ≡ after = ground arith in
          rw same (remove_strategy-IsConsistent selected db' kept)
    ]

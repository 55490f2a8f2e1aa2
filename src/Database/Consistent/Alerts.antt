-- ===== src/Database/Consistent/Alerts.antt =====
-- internal/database/alerts.go: the statements on alerts keep the promises of the keys.
use signalstream.Common.{
  In-map, ◌≡◌, refl, sym, inl, inr, Bool, true, false, List, [], ◌∷◌, ◌++◌, map, codes, is_empty,
  ◌==◌, In, Bool-cases, Option-cases, subst, arith,
}
use signalstream.Database.{Uuid, Strategy, Alert}
use signalstream.Database.Postgres.{Postgres}
use signalstream.Database.Schema.{has_columns}
use signalstream.Database.Statements.{
  Db, next_fault, alert_selected, select_rows, update_rows, mark_alert_read,
}
use signalstream.Database.Alerts.{inserted_columns, refused_alert, new_alert, create_alert}
use signalstream.Database.Consistent.{IsConsistent, RefersToOwn, owned, known_users}
use signalstream.Database.Consistent.Lookups.{next_fault-IsConsistent, In-looked_up, not_looked_up}
use signalstream.Database.Consistent.Rows.{
  All-append, All-update_rows, some_selected, Distinct-append, Distinct-update_rows,
}

-- A strategy that the alert names belongs to the alert's user.
abbrev pub NamesOwn : List Strategy → Alert → Type 0
NamesOwn strategies alert =
    (s : Strategy) → In s strategies → s.id ≡ alert.strategy_id → s.user_id ≡ alert.user_id

-- A strategy that a statement has looked up.
RefersToOwn-looked_up :
    (rows : List Strategy) (alert : Alert)
    → is_empty (select_rows (λ row. row.id == alert.strategy_id) rows) ≡ false
    → NamesOwn rows alert
    → RefersToOwn rows alert
RefersToOwn-looked_up rows alert h own =
    let (s, m, hit) = some_selected (λ row. row.id == alert.strategy_id) rows h in
    let same_id : s.id ≡ alert.strategy_id = ground arith in
    let same_user = own s m same_id in
    let same : owned s ≡ (alert.strategy_id, alert.user_id) = ground arith in
    inr (subst (λ p. In p (map owned rows)) same (In-map owned rows s m))

insert_alert-IsConsistent :
    (pg : Postgres) (alert : Alert) (db : Db)
    → refused_alert (pg.new_uuid db) alert db ≡ false
    → NamesOwn db.strategies alert
    → IsConsistent db
    → IsConsistent (record db { alerts = db.alerts ++ new_alert pg alert db ∷ [] })
unfolding refused_alert new_alert
insert_alert-IsConsistent pg alert db fits own c =
    let row = new_alert pg alert db in
    record {
      user_ids = c.user_ids;
      emails = c.emails;
      strategy_ids = c.strategy_ids;
      strategy_nonzero = c.strategy_nonzero;
      strategy_users = c.strategy_users;
      alert_ids =
          Distinct-append (λ a. a.id) db.alerts row c.alert_ids
            (not_looked_up (λ a. a.id) db.alerts (pg.new_uuid db) (ground arith));
      alert_users =
          All-append (λ a. In a.user_id (known_users db.users)) db.alerts row c.alert_users
            (In-looked_up (λ u. u.id) db.users alert.user_id (ground arith));
      alert_strategies =
          All-append (RefersToOwn db.strategies) db.alerts row c.alert_strategies
            (RefersToOwn-looked_up db.strategies alert (ground arith) own);
      key_ids = c.key_ids;
      key_pairs = c.key_pairs;
      key_users = c.key_users;
    }

next_fault-strategies : (db : Db) → (next_fault db).1.strategies ≡ db.strategies
unfolding next_fault
next_fault-strategies db = ground arith

pub create_alert-IsConsistent :
    (pg : Postgres) (alert : Alert) (db : Db)
    → NamesOwn db.strategies alert
    → IsConsistent db
    → IsConsistent (create_alert pg alert db).1
unfolding create_alert
create_alert-IsConsistent pg alert db own c =
    let (fault, db') = next_fault db in
    let kept = next_fault-IsConsistent db c in
    let columns = has_columns (codes "alerts") inserted_columns db'.schema in
    let own' = subst (λ rows. NamesOwn rows alert) (sym (next_fault-strategies db)) own in
    elim (Option-cases fault) [
      | inr (e, failed) ↦
          let same : (create_alert pg alert db).1 ≡ db' = ground arith in rw same kept
      | inl fine ↦ elim (Bool-cases columns) [
        | inr missing ↦ let same : (create_alert pg alert db).1 ≡ db' = ground arith in rw same kept
        | inl there ↦ elim (Bool-cases (refused_alert (pg.new_uuid db') alert db')) [
          | inl refused ↦
              let same : (create_alert pg alert db).1 ≡ db' = ground arith in rw same kept
          | inr fits ↦
              let after : Db = record db' { alerts = db'.alerts ++ new_alert pg alert db' ∷ [] } in
              let same : (create_alert pg alert db).1 ≡ after = ground arith in
              rw same (insert_alert-IsConsistent pg alert db' fits own' kept)
        ]
      ]
    ]

read_alerts-IsConsistent :
    (selected : Alert → Bool) (db : Db)
    → IsConsistent db
    → IsConsistent (record db {
      alerts = update_rows selected (λ row. record row { is_read = true }) db.alerts;
    })
read_alerts-IsConsistent selected db c =
    let read : Alert → Alert = λ row. record row { is_read = true } in
    record {
      user_ids = c.user_ids;
      emails = c.emails;
      strategy_ids = c.strategy_ids;
      strategy_nonzero = c.strategy_nonzero;
      strategy_users = c.strategy_users;
      alert_ids = Distinct-update_rows (λ a. a.id) selected read (λ a. refl) db.alerts c.alert_ids;
      alert_users =
          All-update_rows (λ a. In a.user_id (known_users db.users))
            (λ a. In a.user_id (known_users db.users)) selected read (λ a _ m. m) (λ a _ m. m)
            db.alerts c.alert_users;
      alert_strategies =
          All-update_rows (RefersToOwn db.strategies) (RefersToOwn db.strategies) selected read
            (λ a _ m. m) (λ a _ m. m) db.alerts c.alert_strategies;
      key_ids = c.key_ids;
      key_pairs = c.key_pairs;
      key_users = c.key_users;
    }

pub mark_alert_read-IsConsistent :
    (id user : Uuid) (db : Db) → IsConsistent db → IsConsistent (mark_alert_read id user db).1
unfolding mark_alert_read
mark_alert_read-IsConsistent id user db c =
    let (fault, db') = next_fault db in
    let kept = next_fault-IsConsistent db c in
    elim (Option-cases fault) [
      | inr (e, failed) ↦
          let same : (mark_alert_read id user db).1 ≡ db' = ground arith in rw same kept
      | inl fine ↦
          let selected = alert_selected id user in
          let after : Db = record db' {
            alerts = update_rows selected (λ row. record row { is_read = true }) db'.alerts;
          } in
          let same : (mark_alert_read id user db).1 ≡ after = ground arith in
          rw same (read_alerts-IsConsistent selected db' kept)
    ]

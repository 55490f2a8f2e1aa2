-- ===== src/Database/Consistent/Strategies.antt =====
-- internal/database/strategies.go: the statements on strategies keep the promises of the keys.
use signalstream.Common.{
  All-imp, ◌≡◌, ◌≢◌, refl, sym, ◌∙◌, inl, inr, Bool, false, List, [], ◌∷◌, ◌++◌, map, none, In,
  Bool-cases, Option-cases, subst, arith,
}
use signalstream.Database.{Uuid, Strategy, Alert}
use signalstream.Database.Postgres.{Postgres}
use signalstream.Database.Statements.{
  Db, next_fault, strategy_selected, select_rows, update_rows, set_strategy, update_strategy,
  get_strategy,
}
use signalstream.Database.Strategies.{refused_strategy, new_strategy, create_strategy}
use signalstream.Database.Consistent.{IsConsistent, RefersToOwn, owned, known_users}
use signalstream.Database.Consistent.Lookups.{next_fault-IsConsistent, In-looked_up, not_looked_up}
use signalstream.Database.Consistent.Rows.{
  All-append, All-update_rows, In-map-append, map-update_rows, Distinct-append,
  Distinct-update_rows,
}

-- The rows of the tables with another list of strategies.
abbrev with_strategies : Db → List Strategy → Db
with_strategies db rows = record db { strategies = rows }

-- A change of the rows that keeps the ids and the users.
strategies_same_columns :
    (db : Db) (selected : Strategy → Bool) (change : Strategy → Strategy)
    → ((row : Strategy) → (change row).id ≡ row.id)
    → ((row : Strategy) → (change row).user_id ≡ row.user_id)
    → IsConsistent db
    → IsConsistent (with_strategies db (update_rows selected change db.strategies))
strategies_same_columns db selected change same_id same_user c = record {
  user_ids = c.user_ids;
  emails = c.emails;
  strategy_ids =
      Distinct-update_rows (λ s. s.id) selected change same_id db.strategies c.strategy_ids;
  strategy_nonzero =
      All-update_rows (λ s. s.id ≢ 0) (λ s. s.id ≢ 0) selected change
        (λ s _ ne e. ne (sym (same_id s) ∙ e)) (λ s _ ne. ne) db.strategies c.strategy_nonzero;
  strategy_users =
      All-update_rows (λ s. In s.user_id (known_users db.users))
        (λ s. In s.user_id (known_users db.users)) selected change
        (λ s _ m. subst (λ k. In k (known_users db.users)) (sym (same_user s)) m) (λ s _ m. m)
        db.strategies c.strategy_users;
  alert_ids = c.alert_ids;
  alert_users = c.alert_users;
  alert_strategies =
      let same : map owned (update_rows selected change db.strategies) ≡ map owned db.strategies =
        map-update_rows owned selected change (λ s. ground (arith, same_id s, same_user s))
          db.strategies in
      All-imp (RefersToOwn db.strategies) (RefersToOwn (update_rows selected change db.strategies))
        (λ a h. rw same h) db.alerts c.alert_strategies;
  key_ids = c.key_ids;
  key_pairs = c.key_pairs;
  key_users = c.key_users;
}

pub update_strategy-IsConsistent :
    (s : Strategy) (db : Db) → IsConsistent db → IsConsistent (update_strategy s db).1
unfolding update_strategy set_strategy
update_strategy-IsConsistent s db c =
    let f = next_fault db in
    let db' = f.1 in
    let selected = strategy_selected s.id s.user_id in
    let kept = next_fault-IsConsistent db c in
    elim (Option-cases f.0) [
      | inr (e, failed) ↦ let same : (update_strategy s db).1 ≡ db' = ground arith in rw same kept
      | inl fine ↦ go fine (select_rows selected db'.strategies) refl
    ]
  where
    go :
        ((next_fault db).0 ≡ none)
        → (found : List Strategy)
        → select_rows (strategy_selected s.id s.user_id) (next_fault db).1.strategies ≡ found
        → IsConsistent (update_strategy s db).1
    go fine [] q =
        let same : (update_strategy s db).1 ≡ (next_fault db).1 = ground arith in
        rw same (next_fault-IsConsistent db c)
    go fine (row ∷ rows) q =
        let db' = (next_fault db).1 in
        let same : (update_strategy s db).1
            ≡ with_strategies db' (
                update_rows (strategy_selected s.id s.user_id) (set_strategy s db'.clock)
                  db'.strategies) =
          ground arith in
        rw same (
          strategies_same_columns db' (strategy_selected s.id s.user_id) (set_strategy s db'.clock)
            (λ row. refl) (λ row. refl) (next_fault-IsConsistent db c))

-- A reference stays good when rows are added.
RefersToOwn-append :
    (rows more : List Strategy) (alert : Alert)
    → RefersToOwn rows alert
    → RefersToOwn (rows ++ more) alert
RefersToOwn-append rows more alert (inl null) = inl null
RefersToOwn-append rows more alert (inr there) =
    inr (In-map-append owned rows more (alert.strategy_id, alert.user_id) there)

-- An insertion under an id that no row has.
insert_strategy-IsConsistent :
    (pg : Postgres) (s : Strategy) (db : Db)
    → pg.new_uuid db ≢ 0
    → refused_strategy (pg.new_uuid db) s db ≡ false
    → IsConsistent db
    → IsConsistent (with_strategies db (db.strategies ++ new_strategy pg s db ∷ []))
unfolding refused_strategy new_strategy
insert_strategy-IsConsistent pg s db nonzero fits c =
    let row = new_strategy pg s db in
    let fresh = not_looked_up (λ r. r.id) db.strategies (pg.new_uuid db) (ground arith) in
    record {
      user_ids = c.user_ids;
      emails = c.emails;
      strategy_ids = Distinct-append (λ r. r.id) db.strategies row c.strategy_ids fresh;
      strategy_nonzero = All-append (λ r. r.id ≢ 0) db.strategies row c.strategy_nonzero nonzero;
      strategy_users =
          All-append (λ r. In r.user_id (known_users db.users)) db.strategies row c.strategy_users
            (In-looked_up (λ u. u.id) db.users s.user_id (ground arith));
      alert_ids = c.alert_ids;
      alert_users = c.alert_users;
      alert_strategies =
          All-imp (RefersToOwn db.strategies) (RefersToOwn (db.strategies ++ row ∷ []))
            (RefersToOwn-append db.strategies (row ∷ [])) db.alerts c.alert_strategies;
      key_ids = c.key_ids;
      key_pairs = c.key_pairs;
      key_users = c.key_users;
    }

pub create_strategy-IsConsistent :
    (pg : Postgres) (s : Strategy) (db : Db)
    → pg.new_uuid (next_fault db).1 ≢ 0
    → IsConsistent db
    → IsConsistent (create_strategy pg s db).1
unfolding create_strategy
create_strategy-IsConsistent pg s db nonzero c =
    let (fault, db') = next_fault db in
    let kept = next_fault-IsConsistent db c in
    elim (Option-cases fault) [
      | inr (e, failed) ↦
          let same : (create_strategy pg s db).1 ≡ db' = ground arith in rw same kept
      | inl fine ↦ elim (Bool-cases (refused_strategy (pg.new_uuid db') s db')) [
        | inl refused ↦ let same : (create_strategy pg s db).1 ≡ db' = ground arith in rw same kept
        | inr fits ↦
            let same : (create_strategy pg s db).1
                ≡ with_strategies db' (db'.strategies ++ new_strategy pg s db' ∷ []) =
              ground arith in
            rw same (insert_strategy-IsConsistent pg s db' nonzero fits kept)
      ]
    ]

get_strategy-keeps : (id user : Uuid) (db : Db) → (get_strategy id user db).1 ≡ (next_fault db).1
unfolding get_strategy
get_strategy-keeps id user db = ground arith

pub get_strategy-IsConsistent :
    (id user : Uuid) (db : Db) → IsConsistent db → IsConsistent (get_strategy id user db).1
get_strategy-IsConsistent id user db c =
    rw (get_strategy-keeps id user db) (next_fault-IsConsistent db c)

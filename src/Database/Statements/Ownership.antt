-- ===== src/Database/Statements/Ownership.antt =====
-- internal/database/{strategies,alerts}.go: the statements of one user and the rows of the others.
use signalstream.Common.{
  All-In, ℕ, ◌≡◌, ◌≢◌, refl, Bool, true, inl, inr, List, [], ◌∷◌, some, ok, ◌==◌, if◌then◌else◌,
  Bool-cases, In, ap, arith,
}
use signalstream.Database.{Uuid, Strategy, Alert}
use signalstream.Database.Statements.{
  Db, next_fault, strategy_selected, alert_selected, select_rows, update_rows, delete_rows,
  get_strategy, set_strategy, update_strategy, delete_strategy, mark_alert_read, refers_to,
  forget_strategy,
}
use signalstream.Database.Consistent.{IsConsistent, RefersToOwn, owned}
use signalstream.Database.Consistent.Lookups.{next_fault-IsConsistent}
use signalstream.Database.Consistent.Rows.{some_selected, In-select_rows, In-of_map, Distinct-eq}

module _ {A : Type 0} (owner : A → Uuid) where
  -- The rows that do not belong to the user.
  pub foreign_rows : Uuid → List A → List A
  foreign_rows user [] = []
  foreign_rows user (row ∷ rows) =
      let rest = foreign_rows user rows in if owner row == user then rest else row ∷ rest

  module _ (user : Uuid) (selected : A → Bool)
      (own : (row : A) → selected row ≡ true → owner row ≡ user) where
    foreign-delete_rows :
        (rows : List A) → foreign_rows user (delete_rows selected rows) ≡ foreign_rows user rows
    unfolding foreign_rows delete_rows
    foreign-delete_rows [] = refl
    foreign-delete_rows (row ∷ rows) = ground (arith, own row, foreign-delete_rows rows)

  module _ (user : Uuid) (selected : A → Bool) (change : A → A)
      (same : (row : A) → owner (change row) ≡ owner row) where
    foreign-update_rows :
        (rows : List A)
        → ((row : A) → In row rows → selected row ≡ true → owner row ≡ user)
        → foreign_rows user (update_rows selected change rows) ≡ foreign_rows user rows
    unfolding foreign_rows update_rows
    foreign-update_rows [] own = refl
    foreign-update_rows (row ∷ rows) own =
        ground
          (arith, own row (inl refl), same row, foreign-update_rows rows (λ r m. own r (inr m)))

strategy_selected-own :
    (id user : Uuid) (row : Strategy) → strategy_selected id user row ≡ true → row.user_id ≡ user
unfolding strategy_selected
strategy_selected-own id user row h = ground arith

alert_selected-own :
    (id user : Uuid) (row : Alert) → alert_selected id user row ≡ true → row.user_id ≡ user
unfolding alert_selected
alert_selected-own id user row h = ground arith

-- The strategies and the alerts of the other users are the same in two databases, and so are
-- the users and the API keys.
pub record SameForeign (user : Uuid) (db db' : Db) : Type 0 where
  pub strategies :
      foreign_rows (λ row. row.user_id) user db'.strategies
      ≡ foreign_rows (λ row. row.user_id) user db.strategies
  pub alerts :
      foreign_rows (λ row. row.user_id) user db'.alerts
      ≡ foreign_rows (λ row. row.user_id) user db.alerts
  pub users : db'.users ≡ db.users
  pub api_keys : db'.api_keys ≡ db.api_keys

next_fault-strategies : (db : Db) → (next_fault db).1.strategies ≡ db.strategies
unfolding next_fault
next_fault-strategies db = ground arith

next_fault-alerts : (db : Db) → (next_fault db).1.alerts ≡ db.alerts
unfolding next_fault
next_fault-alerts db = ground arith

next_fault-users : (db : Db) → (next_fault db).1.users ≡ db.users
unfolding next_fault
next_fault-users db = ground arith

next_fault-api_keys : (db : Db) → (next_fault db).1.api_keys ≡ db.api_keys
unfolding next_fault
next_fault-api_keys db = ground arith

-- An alert that refers to a deleted strategy of the user is the user's.
refers_to-own :
    (id user : Uuid) (db : Db) (alert : Alert)
    → IsConsistent db
    → In alert db.alerts
    → refers_to (select_rows (strategy_selected id user) db.strategies) alert ≡ true
    → alert.user_id ≡ user
unfolding refers_to
refers_to-own id user db alert c m referred =
    let selected = strategy_selected id user in
    let deleted = select_rows selected db.strategies in
    let (d, there, same_id) =
      some_selected (λ row. row.id == alert.strategy_id) deleted (ground arith) in
    let (known, hit) = In-select_rows selected db.strategies d there in
    let own = strategy_selected-own id user d hit in
    elim (All-In (RefersToOwn db.strategies) db.alerts alert c.alert_strategies m) [
      | inl null ↦
          let nonzero = All-In (λ s. s.id ≢ 0) db.strategies d c.strategy_nonzero known in
          absurd (nonzero (ground arith))
      | inr listed ↦
          let (s, i, e) = In-of_map owned db.strategies (alert.strategy_id, alert.user_id) listed in
          let ids : s.id ≡ d.id = ground arith in
          let same = Distinct-eq (λ s. s.id) db.strategies s d c.strategy_ids i known ids in
          let users : s.user_id ≡ d.user_id = ap (λ (x : Strategy). x.user_id) same in ground arith
    ]

pub delete_strategy-SameForeign :
    (id user : Uuid) (db : Db)
    → IsConsistent db
    → SameForeign user db (delete_strategy id user db).1
unfolding delete_strategy forget_strategy
delete_strategy-SameForeign id user db c =
    let db' = (next_fault db).1 in
    let kept =
      foreign-update_rows (λ row. row.user_id) user
        (refers_to (select_rows (strategy_selected id user) db'.strategies)) forget_strategy
        (λ row. refl) db'.alerts
        (λ alert. refers_to-own id user db' alert (next_fault-IsConsistent db c)) in
    record {
      strategies = ground (
        arith,
        next_fault-strategies db,
        foreign-delete_rows (λ row. row.user_id) user (strategy_selected id user)
            (strategy_selected-own id user) db.strategies,
      );
      alerts = ground (arith, next_fault-alerts db, kept);
      users = ground (arith, next_fault-users db);
      api_keys = ground (arith, next_fault-api_keys db);
    }

set_strategy-user_id :
    (s : Strategy) (now : ℕ) (row : Strategy) → (set_strategy s now row).user_id ≡ row.user_id
unfolding set_strategy
set_strategy-user_id s now row = refl

pub update_strategy-SameForeign :
    (s : Strategy) (db : Db) → SameForeign s.user_id db (update_strategy s db).1
unfolding update_strategy
update_strategy-SameForeign s db =
    let (fault, db') = next_fault db in
    let selected = strategy_selected s.id s.user_id in
    let kept =
      foreign-update_rows (λ row. row.user_id) s.user_id selected (set_strategy s db'.clock)
        (set_strategy-user_id s db'.clock) db'.strategies
        (λ row _. strategy_selected-own s.id s.user_id row) in
    record {
      strategies = ground (arith, next_fault-strategies db, kept);
      alerts = ground (arith, next_fault-alerts db);
      users = ground (arith, next_fault-users db);
      api_keys = ground (arith, next_fault-api_keys db);
    }

pub mark_alert_read-SameForeign :
    (id user : Uuid) (db : Db) → SameForeign user db (mark_alert_read id user db).1
unfolding mark_alert_read
mark_alert_read-SameForeign id user db =
    let kept =
      foreign-update_rows (λ row. row.user_id) user (alert_selected id user)
        (λ row. record row { is_read = true }) (λ row. refl) (next_fault db).1.alerts
        (λ row _. alert_selected-own id user row) in
    record {
      strategies = ground (arith, next_fault-strategies db);
      alerts = ground (arith, next_fault-alerts db, kept);
      users = ground (arith, next_fault-users db);
      api_keys = ground (arith, next_fault-api_keys db);
    }

select_rows-selected :
    {A : Type 0} (selected : A → Bool) (rows : List A) (row : A) (rest : List A)
    → select_rows selected rows ≡ row ∷ rest
    → selected row ≡ true
unfolding select_rows
select_rows-selected selected [] row rest e = absurd (ground arith)
select_rows-selected selected (r ∷ rs) row rest e = elim (Bool-cases (selected r)) [
  | inl hit ↦ ground arith
  | inr miss ↦ select_rows-selected selected rs row rest (ground arith)
]

-- What `GetStrategy` finds belongs to the user and has the id.
pub record Finds (id user : Uuid) (row : Strategy) : Type 0 where
  pub same_id : row.id ≡ id
  pub same_user : row.user_id ≡ user

pub get_strategy-Finds :
    (id user : Uuid) (db : Db) (row : Strategy)
    → (get_strategy id user db).0 ≡ ok (some row)
    → Finds id user row
unfolding get_strategy strategy_selected
get_strategy-Finds id user db row h =
    go (select_rows (strategy_selected id user) (next_fault db).1.strategies) refl
  where
    go :
        (found : List Strategy)
        → select_rows (strategy_selected id user) (next_fault db).1.strategies ≡ found
        → Finds id user row
    go [] q = absurd (ground arith)
    go (r ∷ rs) q =
        let hit =
          select_rows-selected (strategy_selected id user) (next_fault db).1.strategies r rs q in
        let same : r ≡ row = ground arith in
        record { same_id = ground arith; same_user = ground arith }

pub get_strategy-SameForeign :
    (id user : Uuid) (db : Db) → SameForeign user db (get_strategy id user db).1
unfolding get_strategy
get_strategy-SameForeign id user db = record {
  strategies = ground (arith, next_fault-strategies db);
  alerts = ground (arith, next_fault-alerts db);
  users = ground (arith, next_fault-users db);
  api_keys = ground (arith, next_fault-api_keys db);
}

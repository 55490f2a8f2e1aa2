-- ===== src/Database/Strategies.antt =====
-- internal/database/strategies.go: the insertion of a strategy, a user's strategies, and the active
-- ones of all users.
pub mod Active
pub mod Once
use signalstream.Common.{
  Bool, true, false, ◌&&◌, ◌||◌, not, List, [], ◌∷◌, ◌++◌, some, none, Failure, Result, ok, err,
  is_empty, ◌==◌, if◌then◌else◌,
}
use signalstream.Database.{Uuid, User, Strategy}
use signalstream.Database.Statements.{Db, next_fault, select_rows}
use signalstream.Database.Postgres.{Postgres}

-- Whether a row refers to a missing user or repeats an id.
unfoldable pub refused_strategy : Uuid → Strategy → Db → Bool
refused_strategy id s db =
    is_empty (select_rows (λ row. row.id == s.user_id) db.users)
    || not (is_empty (select_rows (λ row. row.id == id) db.strategies))

-- The rows of `strategies` joined with one of `users`.
unfoldable pub join_user : User → List Strategy → List Strategy
join_user user [] = []
join_user user (s ∷ rest) =
    let later = join_user user rest in
    if (s.user_id == user.id) && s.is_active
    then record s { owner_email = user.email } ∷ later
    else later

-- The rows of the join, which has no order.
unfoldable pub join_users : List User → List Strategy → List Strategy
join_users [] strategies = []
join_users (user ∷ users) strategies = join_user user strategies ++ join_users users strategies

-- `GetAllActiveStrategies`
unfoldable pub get_all_active_strategies : Db → Result (List Strategy) × Db
get_all_active_strategies db =
    let (fault, db') = next_fault db in
    elim fault [ some e ↦ (err e, db') | none ↦ (ok (join_users db'.users db'.strategies), db') ]

module _ (pg : Postgres) where
  -- The row that the statement inserts.
  unfoldable pub new_strategy : Strategy → Db → Strategy
  new_strategy s db = record s {
    id = pg.new_uuid db;
    created_at = db.clock;
    updated_at = db.clock;
    owner_email = [];
  }

  -- `CreateStrategy`, which scans the new id and times into the strategy.
  unfoldable pub create_strategy : Strategy → Db → Result Strategy × Db
  create_strategy s db =
      let (fault, db') = next_fault db in
      elim fault [
        | some e ↦ (err e, db')
        | none ↦ if refused_strategy (pg.new_uuid db') s db' then (err pg.violation, db') else (
          ok (record s { id = pg.new_uuid db'; created_at = db'.clock; updated_at = db'.clock }),
          record db' { strategies = db'.strategies ++ new_strategy s db' ∷ [] },
        )
      ]

  -- `GetUserStrategies`
  unfoldable pub get_user_strategies : Uuid → Db → Result (List Strategy) × Db
  get_user_strategies user db =
      let (fault, db') = next_fault db in
      elim fault [
        | some e ↦ (err e, db')
        | none ↦ (
          ok (
              pg.newest_first (λ row. row.created_at)
                (select_rows (λ row. row.user_id == user) db'.strategies)),
          db',
        )
      ]

-- ===== src/Database/Consistent/Interleaved.antt =====
-- internal/database: the statements of all goroutines, each a transaction of its own, in any order. A request
-- or the check of an event is a sequence of such steps, with steps of others in between. Beside the
-- database the state has two histories: the strategies that were inserted, each as its id and its user,
-- and those that the alerter was given.
pub mod Tracked
mod Tests
use signalstream.Common.{
  ℕ, ◌≡◌, ◌≢◌, refl, sym, ◌∙◌, ap, subst, inl, inr, List, [], ◌∷◌, ◌++◌, map, Failure, Err, Result,
  ok, err, Text, In, All, All-In, All-imp, All-of_In, In-map, Bool-cases, Option-cases, some, none,
  arith,
}
use signalstream.Database.{User, Uuid, Strategy, Alert}
use signalstream.Database.Postgres.{Postgres}
use signalstream.Database.Statements.{
  Db, next_fault, update_strategy, set_strategy, strategy_selected, select_rows, update_rows,
  delete_rows, delete_strategy, mark_alert_read,
}
use signalstream.Database.Users.{create_user}
use signalstream.Database.Keys.{add_api_key, upsert_key, delete_api_key}
use signalstream.Database.Strategies.{
  create_strategy, new_strategy, refused_strategy, get_all_active_strategies, join_users,
}
use signalstream.Database.Strategies.Active.{IsActiveOf, join_users_iff}
use signalstream.Database.Alerts.{create_alert}
use signalstream.Database.Consistent.{IsConsistent, owned}
use signalstream.Database.Consistent.Kept.{
  next_fault-strategies, create_user-strategies, add_api_key-strategies, delete_api_key-strategies,
  mark_alert_read-strategies, create_alert-strategies, create_strategy-All, update_strategy-All,
  delete_strategy-All,
}
use signalstream.Database.Consistent.Lookups.{next_fault-IsConsistent, moment-IsConsistent}
use signalstream.Database.Consistent.Strategies.{
  create_strategy-IsConsistent, update_strategy-IsConsistent,
}
use signalstream.Database.Consistent.Deletion.{delete_strategy-IsConsistent}
use signalstream.Database.Consistent.Alerts.{
  NamesOwn, create_alert-IsConsistent, mark_alert_read-IsConsistent,
}
use signalstream.Database.Consistent.Accounts.{
  create_user-IsConsistent, add_api_key-IsConsistent, delete_api_key-IsConsistent,
}
use signalstream.Database.Consistent.Rows.{All-append, All-delete_rows, All-update_rows}

pub record Tables : Type 0 where
  pub db : Db
  pub inserted : List (Uuid × Uuid)
  pub given : List Strategy

module _ (pg : Postgres) where
  pub data Step (t : Tables) : Tables → Type 0 where
    registers :
        (email password_hash : Text)
        → Step t (record t { db = (create_user pg.new_uuid email password_hash t.db).1 })
    -- The id that the database generates is not zero, and is none that it generated before.
    creates :
        (s : Strategy)
        → pg.new_uuid (next_fault t.db).1 ≢ 0
        → ((user : Uuid) → ¬ In (pg.new_uuid (next_fault t.db).1, user) t.inserted)
        → Step t (record t {
          db = (create_strategy pg s t.db).1;
          inserted = (pg.new_uuid (next_fault t.db).1, s.user_id) ∷ t.inserted;
        })
    updates : (s : Strategy) → Step t (record t { db = (update_strategy s t.db).1 })
    deletes : (id user : Uuid) → Step t (record t { db = (delete_strategy id user t.db).1 })
    adds_key :
        (user : Uuid) (provider encrypted_key : Text)
        → Step t (record t {
          db = (add_api_key pg.new_uuid pg.violation user provider encrypted_key t.db).1;
        })
    deletes_key :
        (user : Uuid) (provider : Text)
        → Step t (record t { db = (delete_api_key user provider t.db).1 })
    reads_alert : (id user : Uuid) → Step t (record t { db = (mark_alert_read id user t.db).1 })
    -- The alerter reads the active strategies.
    loads :
        (strategies : List Strategy) (db : Db)
        → get_all_active_strategies t.db ≡ (ok strategies, db)
        → Step t (record t { db = db; given = strategies ++ t.given })
    -- The alerter stores an alert for a strategy that it was given.
    alerts :
        (s : Strategy) (alert : Alert)
        → In s t.given
        → alert.strategy_id ≡ s.id
        → alert.user_id ≡ s.user_id
        → Step t (record t { db = (create_alert pg alert t.db).1 })
    passes :
        (clock : ℕ) (faults : List Failure)
        → Step t (record t { db = record (t.db) { clock = clock; faults = faults } })

  pub data Reach (start : Tables) : Tables → Type 0 where
    here : Reach start start
    later : {t t' : Tables} → Reach start t → Step t t' → Reach start t'

  -- What the histories say of the database.
  pub record IsTracked (t : Tables) : Type 0 where
    pub consistent : IsConsistent t.db
    pub one_user : (id u v : Uuid) → In (id, u) t.inserted → In (id, v) t.inserted → u ≡ v
    pub rows : All (λ s. In (owned s) t.inserted) t.db.strategies
    pub loaded : All (λ s. In (owned s) t.inserted) t.given

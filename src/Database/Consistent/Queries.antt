-- ===== src/Database/Consistent/Queries.antt =====
-- internal/database: the statements that only read keep the promises of the keys.
use signalstream.Common.{◌≡◌, Text, arith}
use signalstream.Common.Int.{ℤ}
use signalstream.Database.{Uuid}
use signalstream.Database.Postgres.{Postgres}
use signalstream.Database.Statements.{Db, next_fault}
use signalstream.Database.Users.{get_user_by_email, get_user_by_id}
use signalstream.Database.Strategies.{get_user_strategies}
use signalstream.Database.Alerts.{get_user_alerts}
use signalstream.Database.Keys.{get_api_keys}
use signalstream.Database.Consistent.{IsConsistent}
use signalstream.Database.Consistent.Lookups.{next_fault-IsConsistent}

module _ (db : Db) (c : IsConsistent db) where
  pub get_user_by_email-IsConsistent : (email : Text) → IsConsistent (get_user_by_email email db).1
  unfolding get_user_by_email
  get_user_by_email-IsConsistent email =
      let same : (get_user_by_email email db).1 ≡ (next_fault db).1 = ground arith in
      rw same (next_fault-IsConsistent db c)

  pub get_user_by_id-IsConsistent : (id : Uuid) → IsConsistent (get_user_by_id id db).1
  unfolding get_user_by_id
  get_user_by_id-IsConsistent id =
      let same : (get_user_by_id id db).1 ≡ (next_fault db).1 = ground arith in
      rw same (next_fault-IsConsistent db c)

  pub get_api_keys-IsConsistent : (user : Uuid) → IsConsistent (get_api_keys user db).1
  unfolding get_api_keys
  get_api_keys-IsConsistent user =
      let same : (get_api_keys user db).1 ≡ (next_fault db).1 = ground arith in
      rw same (next_fault-IsConsistent db c)

  pub get_user_strategies-IsConsistent :
      (pg : Postgres) (user : Uuid) → IsConsistent (get_user_strategies pg user db).1
  unfolding get_user_strategies
  get_user_strategies-IsConsistent pg user =
      let same : (get_user_strategies pg user db).1 ≡ (next_fault db).1 = ground arith in
      rw same (next_fault-IsConsistent db c)

  pub get_user_alerts-IsConsistent :
      (pg : Postgres) (user : Uuid) (limit offset : ℤ)
      → IsConsistent (get_user_alerts pg user limit offset db).1
  unfolding get_user_alerts
  get_user_alerts-IsConsistent pg user limit offset =
      let same : (get_user_alerts pg user limit offset db).1 ≡ (next_fault db).1 = ground arith in
      rw same (next_fault-IsConsistent db c)

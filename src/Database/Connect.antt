-- ===== src/Database/Connect.antt =====
-- internal/database/database.go, `Connect`. The handle that `sql.Open` gives and the package
-- database/sql are parameters.
use signalstream.Common.{ℕ, ◌*◌, none, some, Failure, Result, ok, err, wrap, Text, codes}
use signalstream.Platform.{Action}
use signalstream.Retry.{second}

-- The handle with the settings of its pool.
pub record PooledDb (H : Type 0) : Type 0 where
  pub handle : H
  pub max_open_conns : ℕ
  pub max_idle_conns : ℕ
  pub conn_max_lifetime : ℕ

pub record Sql (E H : Type 0) : Type 0 where
  pub open_db : (driver url : Text) → Action E (Result H)
  pub ping : PooledDb H → Action E Failure

unfoldable pub connect : {E H : Type 0} → Sql E H → Text → Action E (Result (PooledDb H))
connect {H = H} sql url w =
    let (opened, w₁) = sql.open_db (codes "pgx") url w in
    elim opened [
      | err e ↦ (err (wrap (codes "open database connection: ") e), w₁)
      | ok db ↦
          let pool : PooledDb H = record {
            handle = db;
            max_open_conns = 25;
            max_idle_conns = 5;
            conn_max_lifetime = 5 * (60 * second);
          } in
          let (failure, w₂) = sql.ping pool w₁ in
          elim failure [
            | some e ↦ (err (wrap (codes "ping database: ") e), w₂)
            | none ↦ (ok pool, w₂)
          ]
    ]

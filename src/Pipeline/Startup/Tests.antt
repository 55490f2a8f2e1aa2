-- ===== src/Pipeline/Startup/Tests.antt =====
-- A start on an empty database, where every call succeeds.
use signalstream.Common.{ℕ, ◌*◌, ◌≡◌, refl, true, [], none, ok, plain}
use signalstream.Retry.{second}
use signalstream.Database.Connect.{PooledDb, connect}
use signalstream.Database.Schema.{
  Schema, migrate, run_entries, exec, run_statement, columns_of, names, has_column,
}
use signalstream.Common.{codes, text_eq}
use signalstream.Config.{validate}
use signalstream.Database.Schema.Embedded.{embedded}
use signalstream.Database.Schema.Repeated.{Extends}
use signalstream.Enrichment.{ensure_collection_exists}
use signalstream.Api.Server.Wired.{Server}
use signalstream.Pipeline.Startup.{Surroundings, startup}
use signalstream.Pipeline.Startup.Restart.{startup-restarts}
use signalstream.Samples.{config, world}

abbrev sur : Surroundings ℕ ℕ
sur = record {
  open_log = λ w. (none, w);
  parsed = ok config;
  sql = record { open_db = λ driver url w. (ok 1, w); ping = λ pool w. (none, w) };
  sql_error = λ st. plain [];
  read_dir = ok embedded;
  new_qdrant = λ host port. none;
  collection_exists = λ w. (ok true, w);
  create_collection = λ w. (none, w);
}

abbrev pool : PooledDb ℕ
pool = record {
  handle = 1;
  max_open_conns = 25;
  max_idle_conns = 5;
  conn_max_lifetime = 5 * (60 * second);
}

abbrev empty_schema : Schema
empty_schema = record { tables = []; indexes = [] }

abbrev migrated : Schema
migrated = (migrate (λ st. plain []) (ok embedded) empty_schema).1

startup-restarts_example :
    (server : Server) × (startup sur (world, empty_schema) ≡ (ok server, (world, migrated)))
    × (startup sur (world, migrated) ≡ (ok server, (world, migrated)))
    × (server.tokens.secret ≡ codes "0123456789abcdef")
    × (server.encryptor.key ≡ codes "0123456789abcdef0123456789abcdef")
    × Extends empty_schema migrated
unfolding connect validate ensure_collection_exists migrate run_entries exec run_statement
    columns_of names has_column text_eq
startup-restarts_example =
    startup-restarts sur config pool embedded world world world world empty_schema migrated refl
      refl refl refl refl refl refl refl

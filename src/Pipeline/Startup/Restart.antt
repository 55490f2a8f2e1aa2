-- ===== src/Pipeline/Startup/Restart.antt =====
-- cmd/signalstream/main.go: what a start needs, and a start on the database of an earlier one.
use signalstream.Common.{◌≡◌, refl, none, ok, List, arith}
use signalstream.Platform.{World}
use signalstream.Config.{AppConfig, validate, get}
use signalstream.Config.Startup.{new_encryptor-validated}
use signalstream.Auth.Tokens.{new_token_service}
use signalstream.Database.Connect.{PooledDb, connect}
use signalstream.Database.Schema.{Schema, Entry, migrate}
use signalstream.Database.Schema.Repeated.{Extends, migrate-Extends}
use signalstream.Enrichment.{ensure_collection_exists}
use signalstream.Api.Server.Wired.{Server, new_server}
use signalstream.Pipeline.Startup.{Surroundings, set_up_qdrant, set_up, startup}

new_server-validated :
    (c : AppConfig)
    → validate c ≡ none
    → new_server c
      ≡ ok (record {
        cfg = c;
        tokens = new_token_service c.jwt_secret;
        encryptor = record { key = c.encryption_key };
      })
unfolding new_server
new_server-validated c h = ground (arith, new_encryptor-validated c h)

module _ {E H : Type 0} (sur : Surroundings E H) where
  -- If the configuration is accepted, and the calls of the log file, the database, the migrations and
  -- Qdrant succeed, then the start succeeds: its server has the configured keys. A further start whose
  -- calls succeed on the database that it left succeeds likewise, and leaves the schema as it is.
  pub startup-restarts :
      (c : AppConfig) (db : PooledDb H) (entries : List Entry) (w w₁ w₂ w₃ : World E)
      (schema schema' : Schema)
      → sur.open_log w ≡ (none, w₁)
      → sur.parsed ≡ ok c
      → validate c ≡ none
      → connect sur.sql c.database_url w₁ ≡ (ok db, w₂)
      → sur.read_dir ≡ ok entries
      → migrate sur.sql_error (ok entries) schema ≡ (none, schema')
      → sur.new_qdrant c.qdrant_host c.qdrant_port ≡ none
      → ensure_collection_exists sur.collection_exists sur.create_collection w₂ ≡ (none, w₃)
      → (server : Server) × (startup sur (w, schema) ≡ (ok server, (w₃, schema')))
        × (startup sur (w, schema') ≡ (ok server, (w₃, schema')))
        × (server.tokens.secret ≡ c.jwt_secret)
        × (server.encryptor.key ≡ c.encryption_key)
        × Extends schema schema'
  unfolding startup set_up set_up_qdrant get new_token_service
  startup-restarts c db entries w w₁ w₂ w₃ schema schema' opened parsed valid connected read
        migrated client ensured =
      let (more, again) = migrate-Extends sur.sql_error entries schema schema' migrated in
      let made = new_server-validated c valid in
      (
        record {
          cfg = c;
          tokens = new_token_service c.jwt_secret;
          encryptor = record { key = c.encryption_key };
        },
        ground (arith, made),
        ground (arith, made, again),
        refl,
        refl,
        more,
      )

-- ===== src/Pipeline/Startup.antt =====
-- cmd/signalstream/main.go: what `main` sets up before the goroutines start. An error ends the process.
-- The state is the outside world with the schema of the database; the parameters are the log file, the
-- environment, the package database/sql, the embedded files, and the Qdrant client.
pub mod Restart
mod Tests
use signalstream.Common.{Bool, List, Option, none, some, Failure, Err, Result, ok, err, Text}
use signalstream.Common.Int.{ℤ}
use signalstream.Platform.{World, Action}
use signalstream.Config.{AppConfig, get}
use signalstream.Database.Connect.{Sql, connect}
use signalstream.Database.Schema.{Schema, Statement, Entry, migrate}
use signalstream.Enrichment.{ensure_collection_exists}
use signalstream.Api.Server.Wired.{Server, new_server}

pub record Surroundings (E H : Type 0) : Type 0 where
  pub open_log : Action E Failure
  pub parsed : Result AppConfig
  pub sql : Sql E H
  pub sql_error : Statement → Err
  pub read_dir : Result (List Entry)
  pub new_qdrant : Text → ℤ → Failure
  pub collection_exists : Action E (Result Bool)
  pub create_collection : Action E Failure

module _ {E H : Type 0} (sur : Surroundings E H) where
  -- The Qdrant client and its collection.
  unfoldable pub set_up_qdrant : AppConfig → Action E Failure
  set_up_qdrant cfg w = elim (sur.new_qdrant cfg.qdrant_host cfg.qdrant_port) [
    | some e ↦ (some e, w)
    | none ↦ ensure_collection_exists sur.collection_exists sur.create_collection w
  ]

  -- The connection, the migrations, the server, and Qdrant.
  unfoldable pub set_up : AppConfig → World E × Schema → Result Server × (World E × Schema)
  set_up cfg (w, schema) =
      let (connected, w₁) = connect sur.sql cfg.database_url w in
      elim connected [
        | err e ↦ (err e, (w₁, schema))
        | ok db ↦
            let (failed, schema') = migrate sur.sql_error sur.read_dir schema in
            elim failed [
              | some e ↦ (err e, (w₁, schema'))
              | none ↦ elim (new_server cfg) [
                | err e ↦ (err e, (w₁, schema'))
                | ok server ↦
                    let (broken, w₂) = set_up_qdrant cfg w₁ in
                    elim broken [
                      | some e ↦ (err e, (w₂, schema'))
                      | none ↦ (ok server, (w₂, schema'))
                    ]
              ]
            ]
      ]

  unfoldable pub startup : World E × Schema → Result Server × (World E × Schema)
  startup (w, schema) =
      let (failure, w₁) = sur.open_log w in
      elim failure [
        | some e ↦ (err e, (w₁, schema))
        | none ↦
            let (cfg, loaded) = get sur.parsed none in
            elim cfg [ err e ↦ (err e, (w₁, schema)) | ok c ↦ set_up c (w₁, schema) ]
      ]

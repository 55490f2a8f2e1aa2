-- ===== src/Api/Consistent.antt =====
-- internal/api with internal/database: every request keeps the promises of the tables' keys.
pub mod Kept
mod Handlers
mod Listings
mod Keys
use signalstream.Common.{ℕ, ◌≢◌, Text, List, [], ◌∷◌}
use signalstream.Platform.{World}
use signalstream.Database.Statements.{Db}
use signalstream.Database.Consistent.{IsConsistent}
use signalstream.Api.{Request, Handler}
use signalstream.Api.Server.{serve}
use signalstream.Api.Server.Wired.{
  Server, Outside, accounts, keys, listings, claims_of, on_db, handle_metrics, handlers, answer,
}
use signalstream.Api.Consistent.Kept.{Keeps, AllKeep, serve-keeps}
use signalstream.Api.Consistent.Handlers.{
  KeepsKeys, handle_register-KeepsKeys, handle_login-KeepsKeys, handle_delete_strategy-KeepsKeys,
  handle_toggle_strategy-KeepsKeys, handle_mark_alert_read-KeepsKeys,
}
use signalstream.Api.Consistent.Listings.{
  handle_get_me-KeepsKeys, handle_list_strategies-KeepsKeys, handle_create_strategy-KeepsKeys,
  handle_list_alerts-KeepsKeys,
}
use signalstream.Api.Consistent.Keys.{
  handle_list_api_keys-keeps, handle_update_api_key-keeps, handle_delete_api_key-keeps,
}

module _ {B E : Type 0} (outside : Outside B E) (server : Server) where
  -- The database of a state keeps the promises of the keys.
  abbrev pub Holds : World E × Db → Type 0
  Holds s = IsConsistent s.1

  on_db-Keeps : (h : Handler Db) → KeepsKeys h → Keeps Holds (on_db outside server h)
  unfolding on_db
  on_db-Keeps h k r (w, db) c = k r db c

  handlers-AllKeep :
      (alert_stream : Handler (World E × Db))
      → ((db : Db) → outside.pg.new_uuid db ≢ 0)
      → Keeps Holds alert_stream
      → AllKeep Holds (handlers outside server alert_stream)
  unfolding handlers handle_metrics
  handlers-AllKeep alert_stream nonzero stream =
      let a = accounts outside server in
      let k = keys outside server in
      let l = listings outside server in
      record {
        register = on_db-Keeps _ (handle_register-KeepsKeys a);
        login = on_db-Keeps _ (handle_login-KeepsKeys a);
        get_me = on_db-Keeps _ (handle_get_me-KeepsKeys l);
        list_api_keys = λ r s c. handle_list_api_keys-keeps k r s.0 s.1 c;
        update_api_key = λ r s c. handle_update_api_key-keeps k r s.0 s.1 c;
        delete_api_key = λ r s c. handle_delete_api_key-keeps k r s.0 s.1 c;
        list_strategies = on_db-Keeps _ (handle_list_strategies-KeepsKeys l);
        create_strategy = on_db-Keeps _ (handle_create_strategy-KeepsKeys l nonzero);
        delete_strategy = on_db-Keeps _ (handle_delete_strategy-KeepsKeys outside.parse_uuid);
        toggle_strategy = on_db-Keeps _ (handle_toggle_strategy-KeepsKeys outside.parse_uuid);
        list_alerts = on_db-Keeps _ (handle_list_alerts-KeepsKeys l);
        mark_alert_read = on_db-Keeps _ (handle_mark_alert_read-KeepsKeys outside.parse_uuid);
        alert_stream = stream;
        metrics = λ r s c. c;
      }

  -- Every request that the server answers keeps the database consistent: the ids of each table, the
  -- emails, and the user and provider of the API keys are distinct, every row's user exists, and an
  -- alert's strategy is NULL or exists and belongs to the alert's user; whatever the request is, and
  -- whether or not the database fails. The conditions: the database never generates the zero UUID, and
  -- the stream of alerts keeps the database consistent.
  pub answer-IsConsistent :
      (alert_stream : Handler (World E × Db))
      → ((db : Db) → outside.pg.new_uuid db ≢ 0)
      → Keeps Holds alert_stream
      → (r : Request) (w : World E) (db : Db) → IsConsistent db
      → IsConsistent (answer outside server alert_stream r (w, db)).1.1
  unfolding answer
  answer-IsConsistent alert_stream nonzero stream r w db c =
      serve-keeps Holds (claims_of outside server) server.cfg.frontend_url
        (handlers outside server alert_stream) (handlers-AllKeep alert_stream nonzero stream) r
        (w, db) c

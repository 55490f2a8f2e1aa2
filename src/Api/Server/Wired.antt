-- ===== src/Api/Server/Wired.antt =====
-- internal/api/server.go, `NewServer`: the routes with the handlers of the program. The state is the
-- database with the world that the encryption draws from; `outside` holds what the handlers take from
-- third parties. The stream of alerts, which lasts as long as its connection, is a parameter.
pub mod Session
use signalstream.Common.{ℕ, Bool, Option, none, some, Err, Result, ok, err, Text}
use signalstream.Platform.{World}
use signalstream.Metrics.{snapshot}
use signalstream.Config.{AppConfig}
use signalstream.Auth.Encryption.{Crypto, Encryptor, new_encryptor}
use signalstream.Auth.Passwords.{Bcrypt, hash_password, check_password_hash}
use signalstream.Auth.Tokens.{Jwt, TokenService, new_token_service, generate_token, validate_token}
use signalstream.Database.{Uuid}
use signalstream.Database.Statements.{Db}
use signalstream.Database.Postgres.{Postgres}
use signalstream.Api.{Claims, counters_body, Response, Request, Handler}
use signalstream.Api.Accounts.{Credentials, Accounts, handle_register, handle_login}
use signalstream.Api.Handlers.{
  handle_delete_strategy, handle_toggle_strategy, handle_mark_alert_read,
}
use signalstream.Api.Keys.{
  KeyRequest, KeyService, handle_list_api_keys, handle_update_api_key, handle_delete_api_key,
}
use signalstream.Api.Listings.{
  StrategyRequest, handle_get_me, handle_list_strategies, handle_create_strategy,
  handle_list_alerts,
}
use signalstream.Api.Listings as Listings
use signalstream.Api.Server.{Handlers, Reply, serve}

-- `Server`; the database and the broker are in the state.
pub record Server : Type 0 where
  pub cfg : AppConfig
  pub tokens : TokenService
  pub encryptor : Encryptor

-- `NewServer`
unfoldable pub new_server : AppConfig → Result Server
new_server cfg = elim (new_encryptor cfg.encryption_key) [
  | err e ↦ err e
  | ok encryptor ↦
      ok (record { cfg = cfg; tokens = new_token_service cfg.jwt_secret; encryptor = encryptor })
]

pub record Outside (B E : Type 0) : Type 1 where
  pub pg : Postgres
  pub jwt : Jwt
  pub crypto : Crypto B E
  pub bcrypt : Bcrypt Db
  pub decode_credentials : Text → Result Credentials
  pub decode_strategy : Text → Result StrategyRequest
  pub decode_key : Text → Result KeyRequest
  pub uuid_string : Uuid → Text
  pub parse_uuid : Text → Result Uuid

module _ {B E : Type 0} (outside : Outside B E) (server : Server) where
  abbrev pub accounts : Accounts
  accounts = record {
    decode = outside.decode_credentials;
    hash_password = hash_password outside.bcrypt;
    check_password_hash = check_password_hash outside.bcrypt;
    generate_token = λ id email db. generate_token outside.jwt server.tokens id email db.clock;
    uuid_string = outside.uuid_string;
    new_uuid = outside.pg.new_uuid;
  }

  abbrev pub keys : KeyService B E
  keys = record {
    decode = outside.decode_key;
    crypto = outside.crypto;
    encryptor = server.encryptor;
    new_uuid = outside.pg.new_uuid;
    violation = outside.pg.violation;
  }

  abbrev pub listings : Listings.Service
  listings = record {
    pg = outside.pg;
    decode = outside.decode_strategy;
    uuid_string = outside.uuid_string;
  }

  -- `ValidateToken`, as the check of the token uses it.
  unfoldable pub claims_of : Text → World E × Db → Result Claims
  claims_of token (w, db) = elim (validate_token outside.jwt server.tokens token db.clock) [
    | err e ↦ err e
    | ok c ↦ ok (record { user_id = c.user_id; email = c.email })
  ]

  -- A handler that uses the database only.
  unfoldable pub on_db : Handler Db → Handler (World E × Db)
  on_db h r (w, db) = let (response, db') = h r db in (response, (w, db'))

  unfoldable pub handle_metrics : Handler (World E × Db)
  handle_metrics r (w, db) =
      (record { status = 200; body = counters_body (snapshot w.counters) }, (w, db))

  unfoldable pub handlers : Handler (World E × Db) → Handlers (World E × Db)
  handlers alert_stream = record {
    register = on_db (handle_register accounts);
    login = on_db (handle_login accounts);
    get_me = on_db (handle_get_me listings);
    list_api_keys = handle_list_api_keys keys;
    update_api_key = handle_update_api_key keys;
    delete_api_key = handle_delete_api_key keys;
    list_strategies = on_db (handle_list_strategies listings);
    create_strategy = on_db (handle_create_strategy listings);
    delete_strategy = on_db (handle_delete_strategy outside.parse_uuid);
    toggle_strategy = on_db (handle_toggle_strategy outside.parse_uuid);
    list_alerts = on_db (handle_list_alerts listings);
    mark_alert_read = on_db (handle_mark_alert_read outside.parse_uuid);
    alert_stream = alert_stream;
    metrics = handle_metrics;
  }

  -- The answer to a request.
  unfoldable pub answer : Handler (World E × Db) → Request → World E × Db → Reply × (World E × Db)
  answer alert_stream = serve server.cfg.frontend_url claims_of (handlers alert_stream)

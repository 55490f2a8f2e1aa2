-- ===== src/Api/Server/Toy.antt =====
-- Stand-ins for what the server takes from third parties.
use signalstream.Common.{ℕ, [], ok, err, none, some, if◌then◌else◌, plain, codes, text_eq}
use signalstream.Platform.{World}
use signalstream.Auth.Encryption.Toy as Encryption
use signalstream.Auth.Tokens.Toy as Tokens
use signalstream.Database.Postgres.Toy as Postgres
use signalstream.Database.Statements.{Db}
use signalstream.Api.{Handler, no_body}
use signalstream.Api.Server.Wired.{Server, Outside}
use signalstream.Samples.{config}

abbrev pub outside : Outside (Unit {0}) ℕ
outside = record {
  pg = Postgres.toy;
  jwt = Tokens.toy;
  crypto = Encryption.toy;
  bcrypt = record {
    default_cost = 10;
    generate_from_password = λ password cost db. ok password;
    compare_hash_and_password =
        λ hash password. if text_eq password hash then none else some (plain []);
  };
  decode_credentials = λ body. ok (record { email = body; password = codes "secret" });
  decode_strategy = λ body. err (plain []);
  decode_key = λ body. err (plain []);
  uuid_string = λ id. [];
  parse_uuid = λ t. err (plain []);
}

abbrev pub server : Server
server = record {
  cfg = config;
  tokens = Tokens.service;
  encryptor = record { key = config.encryption_key };
}

-- A stream that has ended at once.
abbrev pub no_stream : Handler (World ℕ × Db)
no_stream r s = (record { status = 200; body = no_body }, s)

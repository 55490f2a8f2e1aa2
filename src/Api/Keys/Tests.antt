-- ===== src/Api/Keys/Tests.antt =====
-- A user who stores a key, under a toy cipher that leaves the text as it is.
use signalstream.Common.{ℕ, ◌≡◌, refl, [], ◌∷◌, some, ok, plain, codes, text_eq, length}
use signalstream.Auth.Encryption.{encrypt, decrypt, open_gcm}
use signalstream.Auth.Encryption.Toy.{toy, toy-laws, encryptor}
use signalstream.Database.{User, ApiKey}
use signalstream.Database.Statements.{Db, next_fault, select_rows}
use signalstream.Database.Keys.{get_api_key, add_api_key, upsert_key, key_selected, refused_key}
use signalstream.Api.{Claims, Request, status_body}
use signalstream.Api.Keys.{KeyService, handle_update_api_key, store_key}
use signalstream.Api.Keys.Stored.{update_key-decrypts}
use signalstream.Samples.{world}

abbrev service : KeyService (Unit {0}) ℕ
service = record {
  decode = λ body. ok (record { provider = codes "openai"; key = body });
  crypto = toy;
  encryptor = encryptor;
  new_uuid = λ db. length db.api_keys;
  violation = plain [];
}

abbrev ann : User
ann = record { id = 9; email = codes "ann"; password_hash = []; created_at = 1; updated_at = 1 }

abbrev claims : Claims
claims = record { user_id = 9; email = codes "ann" }

abbrev request : Request
request = record {
  method = codes "POST";
  path = codes "/";
  authorization = [];
  parameter = λ key. [];
  body = codes "k";
  claims = some claims;
}

abbrev no_keys : Db
no_keys = record {
  strategies = [];
  alerts = [];
  users = ann ∷ [];
  api_keys = [];
  clock = 5;
  faults = [];
  schema = record { tables = []; indexes = [] };
}

abbrev stored : ApiKey
stored = record {
  id = 0;
  user_id = 9;
  provider = codes "openai";
  encrypted_key = 0 ∷ 0 ∷ codes "k";
  created_at = 5;
}

abbrev one_key : Db
one_key = record no_keys { api_keys = stored ∷ [] }

update_key-decrypts_example :
    (row : ApiKey) × (get_api_key 9 (codes "openai") one_key ≡ (ok (some row), one_key))
    × (decrypt toy encryptor row.encrypted_key ≡ ok (codes "k"))
unfolding handle_update_api_key store_key add_api_key upsert_key refused_key key_selected
    select_rows next_fault encrypt open_gcm text_eq
update_key-decrypts_example =
    update_key-decrypts service toy-laws request claims
      (record { provider = codes "openai"; key = codes "k" }) world world no_keys one_key
      (record { status = 200; body = status_body (codes "ok") }) refl refl refl refl refl

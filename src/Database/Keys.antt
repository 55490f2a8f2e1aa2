-- ===== src/Database/Keys.antt =====
-- internal/database/apikeys.go: the table of API keys, with one row for each user and provider. The
-- parameters are `gen_random_uuid()` and the error of a violated constraint.
use signalstream.Common.{
  Bool, ◌&&◌, ◌||◌, not, List, [], ◌∷◌, ◌++◌, Option, none, some, Failure, Err, Result, ok, err,
  Text, text_eq, is_empty, ◌==◌, if◌then◌else◌,
}
use signalstream.Database.{Uuid, ApiKey}
use signalstream.Database.Statements.{Db, next_fault, select_rows, update_rows, delete_rows}

-- `WHERE user_id = $1 AND provider = $2`
unfoldable pub key_selected : Uuid → Text → ApiKey → Bool
key_selected user provider row = (row.user_id == user) && text_eq row.provider provider

-- `DO UPDATE SET encrypted_key = EXCLUDED.encrypted_key, created_at = NOW()`
unfoldable pub set_key : Text → Db → ApiKey → ApiKey
set_key encrypted_key db row = record row { encrypted_key = encrypted_key; created_at = db.clock }

-- Whether a new row would refer to a missing user or repeat an id.
unfoldable pub refused_key : Uuid → Uuid → Db → Bool
refused_key id user db =
    is_empty (select_rows (λ row. row.id == user) db.users)
    || not (is_empty (select_rows (λ row. row.id == id) db.api_keys))

-- The statement of `AddAPIKey`: an insertion, or an update of the row that is there.
unfoldable pub upsert_key : (Db → Uuid) → Err → Uuid → Text → Text → Db → Failure × Db
upsert_key new_uuid violation user provider encrypted_key db =
    let selected = key_selected user provider in
    if is_empty (select_rows selected db.api_keys)
    then if refused_key (new_uuid db) user db then (some violation, db) else (
      none,
      record db {
        api_keys =
            db.api_keys
            ++ record {
              id = new_uuid db;
              user_id = user;
              provider = provider;
              encrypted_key = encrypted_key;
              created_at = db.clock;
            }
              ∷ [];
      },
    )
    else (
      none,
      record db { api_keys = update_rows selected (set_key encrypted_key db) db.api_keys },
    )

-- `AddAPIKey`
unfoldable pub add_api_key : (Db → Uuid) → Err → Uuid → Text → Text → Db → Failure × Db
add_api_key new_uuid violation user provider encrypted_key db =
    let (fault, db') = next_fault db in
    elim fault [
      | some e ↦ (some e, db')
      | none ↦ upsert_key new_uuid violation user provider encrypted_key db'
    ]

-- `GetAPIKeys`
unfoldable pub get_api_keys : Uuid → Db → Result (List ApiKey) × Db
get_api_keys user db =
    let (fault, db') = next_fault db in
    elim fault [
      | some e ↦ (err e, db')
      | none ↦ (ok (select_rows (λ row. row.user_id == user) db'.api_keys), db')
    ]

-- `GetAPIKey`: a missing row is a nil key without an error.
unfoldable pub get_api_key : Uuid → Text → Db → Result (Option ApiKey) × Db
get_api_key user provider db =
    let (fault, db') = next_fault db in
    elim fault [
      | some e ↦ (err e, db')
      | none ↦ elim (select_rows (key_selected user provider) db'.api_keys) [
        | [] ↦ (ok none, db')
        | row ∷ rows ↦ (ok (some row), db')
      ]
    ]

-- `DeleteAPIKey`
unfoldable pub delete_api_key : Uuid → Text → Db → Failure × Db
delete_api_key user provider db =
    let (fault, db') = next_fault db in
    elim fault [
      | some e ↦ (some e, db')
      | none ↦
          (none, record db' { api_keys = delete_rows (key_selected user provider) db'.api_keys })
    ]

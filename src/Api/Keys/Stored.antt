-- ===== src/Api/Keys/Stored.antt =====
-- internal/api/keys.go with internal/database/apikeys.go and internal/auth/encryption.go: the key that
-- an update stores.
use signalstream.Common.{
  ◌≡◌, refl, ap, subst, ◌∙◌, inl, inr, true, not, ◌&&◌, List, [], ◌∷◌, ◌++◌, map, none, some, Err,
  ok, Text, codes, text_eq, text_eq_refl, is_empty, Bool-cases, Option-cases, Result-cases, arith,
}
use signalstream.Platform.{World}
use signalstream.Auth.Encryption.{encrypt, decrypt}
use signalstream.Auth.Encryption.RoundTrip.{CryptoLaws, decrypt-encrypt}
use signalstream.Database.{Uuid, ApiKey}
use signalstream.Database.Statements.{Db, select_rows, update_rows}
use signalstream.Database.Statements.Rows.{select_rows-append, select-update_rows}
use signalstream.Database.Statements.Faults.{next_fault-quiet}
use signalstream.Database.Keys.{
  key_selected, set_key, refused_key, upsert_key, add_api_key, get_api_key,
}
use signalstream.Api.{Claims, Request, Response, error_response}
use signalstream.Api.Keys.{KeyRequest, KeyService, store_key, handle_update_api_key}

select-set_key :
    (user : Uuid) (provider key : Text) (db : Db) (row : ApiKey)
    → key_selected user provider (set_key key db row) ≡ key_selected user provider row
unfolding key_selected set_key
select-set_key user provider key db row = refl

-- The database can find the key of the user for the provider, and it is this text.
pub Holds : Uuid → Text → Text → Db → Type 0
Holds user provider text db =
    (row : ApiKey) × (get_api_key user provider db ≡ (ok (some row), db))
    × (row.encrypted_key ≡ text)

get_api_key-head :
    (user : Uuid) (provider : Text) (db : Db) (row : ApiKey) (rest : List ApiKey)
    → db.faults ≡ []
    → select_rows (key_selected user provider) db.api_keys ≡ row ∷ rest
    → get_api_key user provider db ≡ (ok (some row), db)
unfolding get_api_key
get_api_key-head user provider db row rest quiet e = ground (arith, next_fault-quiet db quiet)

-- The database after an insertion, and after an update.
abbrev after_insert : (Db → Uuid) → Uuid → Text → Text → Db → Db
after_insert new_uuid user provider text db = record db {
  api_keys =
      db.api_keys
      ++ record {
        id = new_uuid db;
        user_id = user;
        provider = provider;
        encrypted_key = text;
        created_at = db.clock;
      }
        ∷ [];
}

abbrev after_update : Uuid → Text → Text → Db → Db
after_update user provider text db = record db {
  api_keys = update_rows (key_selected user provider) (set_key text db) db.api_keys;
}

after_insert-Holds :
    (new_uuid : Db → Uuid) (user : Uuid) (provider text : Text) (db : Db)
    → db.faults ≡ []
    → select_rows (key_selected user provider) db.api_keys ≡ []
    → Holds user provider text (after_insert new_uuid user provider text db)
unfolding Holds
after_insert-Holds new_uuid user provider text db quiet q =
    let row : ApiKey = record {
      id = new_uuid db;
      user_id = user;
      provider = provider;
      encrypted_key = text;
      created_at = db.clock;
    } in
    let own : key_selected user provider row ≡ true =
      unfold key_selected in ground (arith, text_eq_refl provider) in
    let head =
      select_rows-append (key_selected user provider) db.api_keys row own
      ∙ ap (λ l. l ++ row ∷ []) q in
    (
      row,
      get_api_key-head user provider (after_insert new_uuid user provider text db) row [] quiet
          head,
      refl,
    )

after_update-Holds :
    (user : Uuid) (provider text : Text) (db : Db) (row : ApiKey) (rest : List ApiKey)
    → db.faults ≡ []
    → select_rows (key_selected user provider) db.api_keys ≡ row ∷ rest
    → Holds user provider text (after_update user provider text db)
unfolding Holds set_key
after_update-Holds user provider text db row rest quiet q =
    let change = set_key text db in
    let head =
      select-update_rows (key_selected user provider) change (select-set_key user provider text db)
        db.api_keys
      ∙ ap (map change) q in
    (
      change row,
      get_api_key-head user provider (after_update user provider text db) (change row)
          (map change rest) quiet head,
      refl,
    )

upsert_key-Holds :
    (new_uuid : Db → Uuid) (violation : Err) (user : Uuid) (provider text : Text) (db db' : Db)
    → db.faults ≡ []
    → upsert_key new_uuid violation user provider text db ≡ (none, db')
    → Holds user provider text db'
unfolding upsert_key
upsert_key-Holds new_uuid violation user provider text db db' quiet h =
    go (select_rows (key_selected user provider) db.api_keys) refl
  where
    go :
        (found : List ApiKey)
        → select_rows (key_selected user provider) db.api_keys ≡ found
        → Holds user provider text db'
    go [] q = elim (Bool-cases (refused_key (new_uuid db) user db)) [
      | inl refused ↦ absurd (ground arith)
      | inr allowed ↦
          let same : after_insert new_uuid user provider text db ≡ db' = ground arith in
          subst (Holds user provider text) same
            (after_insert-Holds new_uuid user provider text db quiet q)
    ]
    go (row ∷ rest) q =
        let same : after_update user provider text db ≡ db' = ground arith in
        subst (Holds user provider text) same
          (after_update-Holds user provider text db row rest quiet q)

add_api_key-Holds :
    (new_uuid : Db → Uuid) (violation : Err) (user : Uuid) (provider text : Text) (db db' : Db)
    → db.faults ≡ []
    → add_api_key new_uuid violation user provider text db ≡ (none, db')
    → Holds user provider text db'
unfolding add_api_key
add_api_key-Holds new_uuid violation user provider text db db' quiet h =
    upsert_key-Holds new_uuid violation user provider text db db' quiet
      (ground (arith, next_fault-quiet db quiet))

module _ {B E : Type 0} (s : KeyService B E) (laws : CryptoLaws s.crypto) where
  -- An API key that an update accepts can be used later: if the update of a user answers 200 and the
  -- database fails no statement, the database then holds for this user and provider a text that
  -- `Decrypt` turns back into the key. The hypothesis: the packages obey `CryptoLaws`.
  pub update_key-decrypts :
      (r : Request) (claims : Claims) (req : KeyRequest) (w w' : World E) (db db' : Db)
      (answer : Response)
      → r.claims ≡ some claims
      → s.decode r.body ≡ ok req
      → db.faults ≡ []
      → handle_update_api_key s r (w, db) ≡ (answer, (w', db'))
      → answer.status ≡ 200
      → (row : ApiKey) × (get_api_key claims.user_id req.provider db' ≡ (ok (some row), db'))
        × (decrypt s.crypto s.encryptor row.encrypted_key ≡ ok req.key)
  unfolding handle_update_api_key store_key error_response Holds
  update_key-decrypts r claims req w w' db db' answer known decoded quiet h fine =
      let unknown =
        not (text_eq req.provider (codes "polygon"))
        && not (text_eq req.provider (codes "openai")) in
      let e = encrypt s.crypto s.encryptor req.key w in
      elim (Bool-cases unknown) [
        | inl bad ↦ absurd (ground arith)
        | inr good ↦ elim (Bool-cases (is_empty req.key)) [
          | inl missing ↦ absurd (ground arith)
          | inr given ↦ elim (Result-cases e.0) [
            | inr (failure, failed) ↦ absurd (ground arith)
            | inl (text, sealed) ↦
                let a = add_api_key s.new_uuid s.violation claims.user_id req.provider text db in
                elim (Option-cases a.0) [
                  | inr (failure, failed) ↦ absurd (ground arith)
                  | inl added ↦
                      let same : a.1 ≡ db' = ground arith in
                      let (row, found, holds) =
                        add_api_key-Holds s.new_uuid s.violation claims.user_id req.provider text db
                          db' quiet (ground arith) in
                      let opened =
                        decrypt-encrypt s.crypto laws s.encryptor req.key text w e.1
                          (ground arith) in
                      (row, found, rw holds opened)
                ]
          ]
        ]
      ]

-- ===== src/Api/Keys.antt =====
-- internal/api/keys.go: the handlers of API keys. The state is the database with the world that the
-- encryption draws its nonces from; the decoding of the JSON body is a parameter.
pub mod Stored
pub mod Listed
mod Tests
use signalstream.Common.{
  ℕ, Bool, true, false, ◌&&◌, not, List, [], ◌∷◌, Option, none, some, Failure, Err, plain, Result,
  ok, err, Text, codes, text_eq, is_empty, if◌then◌else◌,
}
use signalstream.Database.{Uuid, ApiKey}
use signalstream.Platform.{World}
use signalstream.Auth.Encryption.{Crypto, Encryptor, encrypt}
use signalstream.Database.Statements.{Db}
use signalstream.Database.Keys.{add_api_key, get_api_keys, delete_api_key}
use signalstream.Api.{Claims, status_body, keys_body, Response, Request, Handler, error_response}

-- `apiKeyRequest`
pub record KeyRequest : Type 0 where
  pub provider : Text
  pub key : Text

pub record KeyService (B E : Type 0) : Type 0 where
  pub decode : Text → Result KeyRequest
  pub crypto : Crypto B E
  pub encryptor : Encryptor
  pub new_uuid : Db → Uuid
  pub violation : Err

-- The inner loop of `handleListAPIKeys`.
unfoldable pub mark_provider : Text → List (Text × Bool) → List (Text × Bool)
mark_provider provider [] = []
mark_provider provider ((p, has) ∷ rest) =
    (p, (if text_eq p provider then true else has)) ∷ mark_provider provider rest

unfoldable pub mark_providers : List ApiKey → List (Text × Bool) → List (Text × Bool)
mark_providers [] response = response
mark_providers (k ∷ keys) response = mark_providers keys (mark_provider k.provider response)

module _ {B E : Type 0} (s : KeyService B E) where
  -- `http.ErrNoCookie`
  abbrev pub no_cookie : Err
  no_cookie = plain (codes "http: named cookie not present")

  -- `getUserAPIKey`, which nothing calls.
  unfoldable pub get_user_api_key : Request → Text → Text × Failure
  get_user_api_key r provider = elim r.claims [
    | none ↦ ([], some no_cookie)
    | some claims ↦ ([], none)
  ]

  unfoldable pub handle_list_api_keys : Handler (World E × Db)
  handle_list_api_keys r (w, db) = elim r.claims [
    | none ↦ (error_response 401 (codes "unauthorized"), (w, db))
    | some claims ↦
        let (keys, db') = get_api_keys claims.user_id db in
        elim keys [
          | err e ↦ (error_response 500 (codes "database error"), (w, db'))
          | ok rows ↦ (
            record {
              status = 200;
              body =
                  keys_body
                    (mark_providers rows ((codes "polygon", false) ∷ (codes "openai", false) ∷ []));
            },
            (w, db'),
          )
        ]
  ]

  unfoldable pub store_key : Uuid → Text → Text → World E → Db → Response × (World E × Db)
  store_key user provider encrypted_key w db =
      let (failure, db') = add_api_key s.new_uuid s.violation user provider encrypted_key db in
      elim failure [
        | some e ↦ (error_response 500 (codes "database error"), (w, db'))
        | none ↦ (record { status = 200; body = status_body (codes "ok") }, (w, db'))
      ]

  unfoldable pub handle_update_api_key : Handler (World E × Db)
  handle_update_api_key r (w, db) = elim r.claims [
    | none ↦ (error_response 401 (codes "unauthorized"), (w, db))
    | some claims ↦ elim (s.decode r.body) [
      | err e ↦ (error_response 400 (codes "invalid request body"), (w, db))
      | ok req ↦
          if not (text_eq req.provider (codes "polygon"))
            && not (text_eq req.provider (codes "openai"))
          then (
            error_response 400 (codes "invalid provider (must be 'polygon' or 'openai')"),
            (w, db),
          )
          else if is_empty req.key
          then (error_response 400 (codes "key is required"), (w, db))
          else let (encrypted, w') = encrypt s.crypto s.encryptor req.key w in
            elim encrypted [
              | err e ↦ (error_response 500 (codes "encryption failed"), (w', db))
              | ok text ↦ store_key claims.user_id req.provider text w' db
            ]
    ]
  ]

  unfoldable pub handle_delete_api_key : Handler (World E × Db)
  handle_delete_api_key r (w, db) = elim r.claims [
    | none ↦ (error_response 401 (codes "unauthorized"), (w, db))
    | some claims ↦
        if is_empty (r.parameter (codes "provider"))
        then (error_response 400 (codes "provider is required"), (w, db))
        else let (failure, db') =
            delete_api_key claims.user_id (r.parameter (codes "provider")) db in
          elim failure [
            | some e ↦ (error_response 500 (codes "database error"), (w, db'))
            | none ↦ (record { status = 200; body = status_body (codes "deleted") }, (w, db'))
          ]
  ]

-- ===== src/Api/Consistent/Keys.antt =====
-- internal/api/keys.go: the handlers of API keys keep the promises of the tables' keys.
use signalstream.Common.{
  ◌≡◌, inl, inr, not, ◌&&◌, Text, codes, text_eq, is_empty, Bool-cases, Option-cases, Result-cases,
  arith,
}
use signalstream.Platform.{World}
use signalstream.Auth.Encryption.{encrypt}
use signalstream.Database.{Uuid}
use signalstream.Database.Statements.{Db}
use signalstream.Database.Keys.{add_api_key, get_api_keys, delete_api_key}
use signalstream.Database.Consistent.{IsConsistent}
use signalstream.Database.Consistent.Accounts.{
  add_api_key-IsConsistent, delete_api_key-IsConsistent,
}
use signalstream.Database.Consistent.Queries.{get_api_keys-IsConsistent}
use signalstream.Api.{Request}
use signalstream.Api.Keys.{
  KeyService, handle_list_api_keys, store_key, handle_update_api_key, handle_delete_api_key,
}

module _ {B E : Type 0} (s : KeyService B E) (r : Request) (w : World E) (db : Db)
    (c : IsConsistent db) where
  pub handle_list_api_keys-keeps : IsConsistent (handle_list_api_keys s r (w, db)).1.1
  unfolding handle_list_api_keys
  handle_list_api_keys-keeps = elim (Option-cases r.claims) [
    | inl nobody ↦
        let same : (handle_list_api_keys s r (w, db)).1.1 ≡ db = ground arith in rw same c
    | inr (claims, q) ↦
        let keys = get_api_keys claims.user_id db in
        let kept = get_api_keys-IsConsistent db c claims.user_id in
        elim (Result-cases keys.0) [
          | inr (e, bad) ↦
              let same : (handle_list_api_keys s r (w, db)).1.1 ≡ keys.1 = ground arith in
              rw same kept
          | inl (rows, fine) ↦
              let same : (handle_list_api_keys s r (w, db)).1.1 ≡ keys.1 = ground arith in
              rw same kept
        ]
  ]

  pub handle_delete_api_key-keeps : IsConsistent (handle_delete_api_key s r (w, db)).1.1
  unfolding handle_delete_api_key
  handle_delete_api_key-keeps = elim (Option-cases r.claims) [
    | inl nobody ↦ rw nobody c
    | inr (claims, q) ↦
        let provider = r.parameter (codes "provider") in
        let gone = delete_api_key claims.user_id provider db in
        let kept = delete_api_key-IsConsistent claims.user_id provider db c in
        elim (Bool-cases (is_empty provider)) [
          | inl missing ↦ rw (q, missing) c
          | inr given ↦ elim (Option-cases gone.0) [
            | inl fine ↦ rw (q, given, fine) kept
            | inr (e, bad) ↦ rw (q, given, bad) kept
          ]
        ]
  ]

  store_key-keeps :
      (user : Uuid) (provider encrypted_key : Text) (w' : World E)
      → IsConsistent (store_key s user provider encrypted_key w' db).1.1
  unfolding store_key
  store_key-keeps user provider encrypted_key w' =
      let added = add_api_key s.new_uuid s.violation user provider encrypted_key db in
      let kept = add_api_key-IsConsistent s.new_uuid s.violation user provider encrypted_key db c in
      elim (Option-cases added.0) [
        | inl fine ↦
            let same : (store_key s user provider encrypted_key w' db).1.1 ≡ added.1 =
              ground arith in
            rw same kept
        | inr (e, bad) ↦
            let same : (store_key s user provider encrypted_key w' db).1.1 ≡ added.1 =
              ground arith in
            rw same kept
      ]

  pub handle_update_api_key-keeps : IsConsistent (handle_update_api_key s r (w, db)).1.1
  unfolding handle_update_api_key
  handle_update_api_key-keeps =
      let after = handle_update_api_key s r (w, db) in
      elim (Option-cases r.claims) [
        | inl nobody ↦ let same : after.1.1 ≡ db = ground arith in rw same c
        | inr (claims, q) ↦ elim (Result-cases (s.decode r.body)) [
          | inr (e, bad) ↦ let same : after.1.1 ≡ db = ground arith in rw same c
          | inl (req, decoded) ↦
              elim (Bool-cases (
                not (text_eq req.provider (codes "polygon"))
                && not (text_eq req.provider (codes "openai")))) [
                  | inl invalid ↦
                      let same : after.1.1 ≡ db = ground arith in
                      let same : after.1.1 ≡ db = ground arith in rw same c
                  | inr valid ↦ elim (Bool-cases (is_empty req.key)) [
                    | inl missing ↦
                        let same : after.1.1 ≡ db = ground arith in
                        let same : after.1.1 ≡ db = ground arith in rw same c
                    | inr given ↦
                        let sealed = encrypt s.crypto s.encryptor req.key w in
                        elim (Result-cases sealed.0) [
                          | inr (e, bad) ↦
                              let same : after.1.1 ≡ db = ground arith in
                              let same : after.1.1 ≡ db = ground arith in rw same c
                          | inl (text, fine) ↦
                              let same : after
                                  ≡ store_key s claims.user_id req.provider text sealed.1 db =
                                ground arith in
                              rw same (store_key-keeps claims.user_id req.provider text sealed.1)
                        ]
                  ]
                ]
        ]
      ]

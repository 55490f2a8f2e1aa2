-- ===== src/Api/Consistent/Handlers.antt =====
-- internal/api/{auth,keys,strategies,alerts}.go: every handler keeps the promises of the tables' keys.
use signalstream.Common.{
  ℕ, ◌≡◌, refl, inl, inr, false, not, ◌||◌, Result, ok, Text, codes, is_empty, Bool-cases,
  Option-cases, Result-cases, arith,
}
use signalstream.Database.{Uuid, Strategy}
use signalstream.Database.Statements.{
  Db, get_strategy, update_strategy, delete_strategy, mark_alert_read,
}
use signalstream.Database.Users.{
  Creation, created, duplicate_email, not_created, create_user, get_user_by_email,
}
use signalstream.Database.Consistent.{IsConsistent}
use signalstream.Database.Consistent.Deletion.{delete_strategy-IsConsistent}
use signalstream.Database.Consistent.Strategies.{
  update_strategy-IsConsistent, get_strategy-IsConsistent,
}
use signalstream.Database.Consistent.Alerts.{mark_alert_read-IsConsistent}
use signalstream.Database.Consistent.Accounts.{create_user-IsConsistent}
use signalstream.Database.Consistent.Queries.{get_user_by_email-IsConsistent}
use signalstream.Api.{Claims, Request, Response, Handler}
use signalstream.Api.Accounts.{Accounts, Credentials, sign_in, handle_register, handle_login}
use signalstream.Api.Handlers.{
  with_id, run_delete, run_toggle, run_mark_read, handle_delete_strategy, handle_toggle_strategy,
  handle_mark_alert_read,
}
use signalstream.Api.Handlers.Isolation.{with_id-cases}

-- A handler of the database keeps the promises.
abbrev pub KeepsKeys : Handler Db → Type 0
KeepsKeys h = (r : Request) (db : Db) → IsConsistent db → IsConsistent (h r db).1

module _ (a : Accounts) where
  sign_in-keeps : (status : ℕ) (user : _) (db : Db) → (sign_in a status user db).1 ≡ db
  unfolding sign_in
  sign_in-keeps status user db = ground arith

  pub handle_register-KeepsKeys : KeepsKeys (handle_register a)
  unfolding handle_register
  handle_register-KeepsKeys r db c = elim (Result-cases (a.decode r.body)) [
    | inr (e, bad) ↦ let same : (handle_register a r db).1 ≡ db = ground arith in rw same c
    | inl (given, decoded) ↦ elim (Bool-cases (is_empty given.email || is_empty given.password)) [
      | inl missing ↦ let same : (handle_register a r db).1 ≡ db = ground arith in rw same c
      | inr there ↦ elim (Result-cases (a.hash_password given.password db)) [
        | inr (e, bad) ↦ let same : (handle_register a r db).1 ≡ db = ground arith in rw same c
        | inl (hash, hashed) ↦
            let made = create_user a.new_uuid given.email hash db in
            let same : (handle_register a r db).1 ≡ made.1 =
              go given hash decoded there hashed made.0 refl in
            rw same (create_user-IsConsistent a.new_uuid given.email hash db c)
      ]
    ]
  ]
    where
      go :
          (given : Credentials) (hash : Text)
          → a.decode r.body ≡ ok given
          → (is_empty given.email || is_empty given.password) ≡ false
          → a.hash_password given.password db ≡ ok hash
          → (creation : Creation) → (create_user a.new_uuid given.email hash db).0 ≡ creation
          → (handle_register a r db).1 ≡ (create_user a.new_uuid given.email hash db).1
      go given hash p q h (created user) e =
          ground (arith, sign_in-keeps 201 user (create_user a.new_uuid given.email hash db).1)
      go given hash p q h duplicate_email e = ground arith
      go given hash p q h (not_created f) e = ground arith

  pub handle_login-KeepsKeys : KeepsKeys (handle_login a)
  unfolding handle_login
  handle_login-KeepsKeys r db c = elim (Result-cases (a.decode r.body)) [
    | inr (e, bad) ↦ let same : (handle_login a r db).1 ≡ db = ground arith in rw same c
    | inl (given, decoded) ↦
        let found = get_user_by_email given.email db in
        let kept = get_user_by_email-IsConsistent db c given.email in
        elim (Result-cases found.0) [
          | inr (e, bad) ↦
              let same : (handle_login a r db).1 ≡ found.1 = ground arith in rw same kept
          | inl (row, fine) ↦ elim (Option-cases row) [
            | inl nobody ↦
                let same : (handle_login a r db).1 ≡ found.1 = ground arith in rw same kept
            | inr (user, there) ↦
                let same : (handle_login a r db).1 ≡ found.1 =
                  ground (arith, sign_in-keeps 200 user found.1) in
                rw same kept
          ]
        ]
  ]

module _ (parse_uuid : Text → Result Uuid) where
  with_id-KeepsKeys :
      (invalid : Text) (run : Uuid → Claims → Db → Response × Db)
      → ((id : Uuid) (claims : Claims) (db : Db)
          → IsConsistent db
          → IsConsistent (run id claims db).1)
      → KeepsKeys (with_id parse_uuid invalid run)
  with_id-KeepsKeys invalid run keeps r db c = elim (with_id-cases parse_uuid invalid run r db) [
    | inl same ↦ rw same c
    | inr (id, claims, q, same) ↦ rw same (keeps id claims db c)
  ]

  run_delete-keeps :
      (id : Uuid) (claims : Claims) (db : Db)
      → IsConsistent db
      → IsConsistent (run_delete id claims db).1
  unfolding run_delete
  run_delete-keeps id claims db c =
      let same : (run_delete id claims db).1 ≡ (delete_strategy id claims.user_id db).1 =
        ground arith in
      rw same (delete_strategy-IsConsistent id claims.user_id db c)

  run_mark_read-keeps :
      (id : Uuid) (claims : Claims) (db : Db)
      → IsConsistent db
      → IsConsistent (run_mark_read id claims db).1
  unfolding run_mark_read
  run_mark_read-keeps id claims db c =
      let same : (run_mark_read id claims db).1 ≡ (mark_alert_read id claims.user_id db).1 =
        ground arith in
      rw same (mark_alert_read-IsConsistent id claims.user_id db c)

  run_toggle-keeps :
      (id : Uuid) (claims : Claims) (db : Db)
      → IsConsistent db
      → IsConsistent (run_toggle id claims db).1
  unfolding run_toggle
  run_toggle-keeps id claims db c =
      let g = get_strategy id claims.user_id db in
      let read = get_strategy-IsConsistent id claims.user_id db c in
      elim (Result-cases g.0) [
        | inr (e, failed) ↦
            let same : (run_toggle id claims db).1 ≡ g.1 = ground arith in rw same read
        | inl (row, found) ↦ elim (Option-cases row) [
          | inl missing ↦
              let same : (run_toggle id claims db).1 ≡ g.1 = ground arith in rw same read
          | inr (s, there) ↦
              let flipped : Strategy = record s { is_active = not s.is_active } in
              let same : (run_toggle id claims db).1 ≡ (update_strategy flipped g.1).1 =
                ground arith in
              rw same (update_strategy-IsConsistent flipped g.1 read)
        ]
      ]

  pub handle_delete_strategy-KeepsKeys : KeepsKeys (handle_delete_strategy parse_uuid)
  unfolding handle_delete_strategy
  handle_delete_strategy-KeepsKeys =
      with_id-KeepsKeys (codes "invalid strategy id") run_delete run_delete-keeps

  pub handle_toggle_strategy-KeepsKeys : KeepsKeys (handle_toggle_strategy parse_uuid)
  unfolding handle_toggle_strategy
  handle_toggle_strategy-KeepsKeys =
      with_id-KeepsKeys (codes "invalid strategy id") run_toggle run_toggle-keeps

  pub handle_mark_alert_read-KeepsKeys : KeepsKeys (handle_mark_alert_read parse_uuid)
  unfolding handle_mark_alert_read
  handle_mark_alert_read-KeepsKeys =
      with_id-KeepsKeys (codes "invalid alert id") run_mark_read run_mark_read-keeps

-- ===== src/Api/Handlers/Isolation.antt =====
-- internal/api/{middleware,strategies,alerts}.go: whose rows a request can change.
use signalstream.Common.{
  ◌≡◌, refl, ◌∙◌, ◌⊎◌, inl, inr, not, some, Result, Text, codes, is_empty, Bool-cases, Option-cases,
  Result-cases, subst, arith,
}
use signalstream.Database.{Uuid, Strategy}
use signalstream.Database.Statements.{
  Db, get_strategy, update_strategy, delete_strategy, mark_alert_read,
}
use signalstream.Database.Statements.Ownership.{
  SameForeign, get_strategy-Finds, get_strategy-SameForeign, delete_strategy-SameForeign,
  update_strategy-SameForeign, mark_alert_read-SameForeign,
}
use signalstream.Database.Consistent.{IsConsistent}
use signalstream.Api.{Claims, Response, Request, Handler, require_auth}
use signalstream.Api.Guard.{Authorized, Guards, require_auth-Guards}
use signalstream.Api.Handlers.{
  with_id, run_delete, run_toggle, run_mark_read, handle_delete_strategy, handle_toggle_strategy,
  handle_mark_alert_read,
}

SameForeign-refl : (user : Uuid) (db : Db) → SameForeign user db db
SameForeign-refl user db = record {
  strategies = refl;
  alerts = refl;
  users = refl;
  api_keys = refl;
}

SameForeign-trans :
    (user : Uuid) (a b c : Db) → SameForeign user a b → SameForeign user b c → SameForeign user a c
SameForeign-trans user a b c p q = record {
  strategies = q.strategies ∙ p.strategies;
  alerts = q.alerts ∙ p.alerts;
  users = q.users ∙ p.users;
  api_keys = q.api_keys ∙ p.api_keys;
}

run_delete-SameForeign :
    (id : Uuid) (claims : Claims) (db : Db)
    → IsConsistent db
    → SameForeign claims.user_id db (run_delete id claims db).1
unfolding run_delete
run_delete-SameForeign id claims db c =
    let same : (run_delete id claims db).1 ≡ (delete_strategy id claims.user_id db).1 =
      ground arith in
    rw same (delete_strategy-SameForeign id claims.user_id db c)

run_mark_read-SameForeign :
    (id : Uuid) (claims : Claims) (db : Db)
    → SameForeign claims.user_id db (run_mark_read id claims db).1
unfolding run_mark_read
run_mark_read-SameForeign id claims db =
    let same : (run_mark_read id claims db).1 ≡ (mark_alert_read id claims.user_id db).1 =
      ground arith in
    rw same (mark_alert_read-SameForeign id claims.user_id db)

run_toggle-SameForeign :
    (id : Uuid) (claims : Claims) (db : Db)
    → SameForeign claims.user_id db (run_toggle id claims db).1
unfolding run_toggle
run_toggle-SameForeign id claims db =
    let user = claims.user_id in
    let g = get_strategy id user db in
    let read = get_strategy-SameForeign id user db in
    elim (Result-cases g.0) [
      | inr (e, failed) ↦
          let same : (run_toggle id claims db).1 ≡ g.1 = ground arith in rw same read
      | inl (row, found) ↦ elim (Option-cases row) [
        | inl missing ↦ let same : (run_toggle id claims db).1 ≡ g.1 = ground arith in rw same read
        | inr (s, there) ↦
            let flipped : Strategy = record s { is_active = not s.is_active } in
            let own : s.user_id ≡ user =
              (get_strategy-Finds id user db s (ground arith)).same_user in
            let same : (run_toggle id claims db).1 ≡ (update_strategy flipped g.1).1 =
              ground arith in
            let written =
              subst (λ u. SameForeign u g.1 (update_strategy flipped g.1).1) own
                (update_strategy-SameForeign flipped g.1) in
            rw same (SameForeign-trans user db g.1 (update_strategy flipped g.1).1 read written)
      ]
    ]

module _ (parse_uuid : Text → Result Uuid) where
  -- The head of the handlers answers itself, or runs the rest with an id.
  pub with_id-cases :
      (invalid : Text) (run : Uuid → Claims → Db → Response × Db) (r : Request) (db : Db)
      → ((with_id parse_uuid invalid run r db).1 ≡ db)
        ⊎ ((id : Uuid) × (claims : Claims) × (r.claims ≡ some claims)
            × (with_id parse_uuid invalid run r db ≡ run id claims db))
  unfolding with_id
  with_id-cases invalid run r db = elim (Option-cases r.claims) [
    | inl nobody ↦ inl (ground arith)
    | inr (claims, q) ↦ elim (Bool-cases (is_empty (r.parameter (codes "id")))) [
      | inl missing ↦ inl (ground arith)
      | inr given ↦ elim (Result-cases (parse_uuid (r.parameter (codes "id")))) [
        | inr (e, bad) ↦ inl (ground arith)
        | inl (id, good) ↦ inr (id, claims, q, ground arith)
      ]
    ]
  ]

  with_id-SameForeign :
      (invalid : Text) (run : Uuid → Claims → Db → Response × Db) (db : Db)
      → ((id : Uuid) (claims : Claims) → SameForeign claims.user_id db (run id claims db).1)
      → (r : Request) (claims : Claims) → r.claims ≡ some claims
      → SameForeign claims.user_id db (with_id parse_uuid invalid run r db).1
  with_id-SameForeign invalid run db keeps r claims q = elim (with_id-cases invalid run r db) [
    | inl same ↦ rw same (SameForeign-refl claims.user_id db)
    | inr (id, claims', q', same) ↦
        let one : claims' ≡ claims = ground arith in rw (same, one) (keeps id claims)
  ]

  -- The requests that change one row.
  pub data Write : Type 0 where
    deletes_strategy : Write
    toggles_strategy : Write
    marks_alert : Write

  pub write_handler : Write → Handler Db
  write_handler deletes_strategy = handle_delete_strategy parse_uuid
  write_handler toggles_strategy = handle_toggle_strategy parse_uuid
  write_handler marks_alert = handle_mark_alert_read parse_uuid

  write_handler-SameForeign :
      (write : Write) (r : Request) (claims : Claims) (db : Db)
      → IsConsistent db
      → r.claims ≡ some claims
      → SameForeign claims.user_id db (write_handler write r db).1
  unfolding write_handler handle_delete_strategy handle_toggle_strategy handle_mark_alert_read
  write_handler-SameForeign deletes_strategy r claims db c =
      with_id-SameForeign (codes "invalid strategy id") run_delete db
        (λ id claims. run_delete-SameForeign id claims db c) r claims
  write_handler-SameForeign toggles_strategy r claims db c =
      with_id-SameForeign (codes "invalid strategy id") run_toggle db
        (λ id claims. run_toggle-SameForeign id claims db) r claims
  write_handler-SameForeign marks_alert r claims db c =
      with_id-SameForeign (codes "invalid alert id") run_mark_read db
        (λ id claims. run_mark_read-SameForeign id claims db) r claims

  -- A request to delete or toggle a strategy or to mark an alert as read, behind the check of its token,
  -- on a consistent database, leaves the whole database as it is, or carries a valid token and leaves the strategies and alerts
  -- of every user but the token's, and all users and API keys, as they are; whichever ids it names, and
  -- whether or not the database fails.
  pub write-isolated :
      (validate_token : Text → Db → Result Claims) (write : Write) (r : Request) (db : Db)
      → IsConsistent db
      → let db' = (require_auth validate_token (write_handler write) r db).1 in
        (db' ≡ db)
        ⊎ ((claims : Claims) × Authorized validate_token r db claims
            × SameForeign claims.user_id db db')
  write-isolated validate_token write r db c =
      go (require_auth-Guards validate_token (write_handler write) r db)
    where
      go :
          Guards validate_token
            (write_handler write)
            r
            db
            (require_auth validate_token (write_handler write) r db)
          → ((require_auth validate_token (write_handler write) r db).1 ≡ db)
            ⊎ ((claims : Claims) × Authorized validate_token r db claims
                × SameForeign claims.user_id db
                    (require_auth validate_token (write_handler write) r db).1)
      go (Guards.refused message unauthorized q) = inl (ground arith)
      go (Guards.admitted claims a q) = inr (
        claims,
        a,
        rw q (write_handler-SameForeign write (record r { claims = some claims }) claims db c refl),
      )

-- ===== src/Database/Consistent/Accounts.antt =====
-- internal/database/{users,apikeys}.go: the statements on users and API keys keep the promises of the keys.
use signalstream.Common.{
  All-imp, ◌≡◌, ◌≢◌, refl, inl, inr, ap, true, false, List, [], ◌∷◌, ◌++◌, Err, Text, text_eq_iff,
  is_empty, In, All, Bool-cases, Option-cases, arith,
}
use signalstream.Database.{Uuid, User, ApiKey}
use signalstream.Database.Statements.{Db, next_fault, select_rows, update_rows, delete_rows}
use signalstream.Database.Users.{clashes, create_user}
use signalstream.Database.Keys.{
  key_selected, set_key, refused_key, upsert_key, add_api_key, delete_api_key,
}
use signalstream.Database.Consistent.{IsConsistent, Distinct, known_users, key_pair}
use signalstream.Database.Consistent.Lookups.{next_fault-IsConsistent, In-looked_up, not_looked_up}
use signalstream.Database.Consistent.Rows.{
  All-append, All-delete_rows, All-update_rows, none_selected, In-map-append, Distinct-append,
  Distinct-delete_rows, Distinct-update_rows,
}

-- References to users stay good when a user is added.
known-append :
    {A : Type 0} (user_of : A → Uuid) (users : List User) (user : User) (rows : List A)
    → All (λ row. In (user_of row) (known_users users)) rows
    → All (λ row. In (user_of row) (known_users (users ++ user ∷ []))) rows
known-append user_of users user rows h =
    All-imp (λ row. In (user_of row) (known_users users))
      (λ row. In (user_of row) (known_users (users ++ user ∷ [])))
      (λ row m. In-map-append (λ u. u.id) users (user ∷ []) (user_of row) m) rows h

insert_user-IsConsistent :
    (user : User) (db : Db)
    → is_empty (select_rows (clashes user.id user.email) db.users) ≡ true
    → IsConsistent db
    → IsConsistent (record db { users = db.users ++ user ∷ [] })
unfolding clashes
insert_user-IsConsistent user db fits c =
    let apart = none_selected (clashes user.id user.email) db.users fits in
    record {
      user_ids =
          Distinct-append (λ u. u.id) db.users user c.user_ids
            (All-imp (λ u. clashes user.id user.email u ≡ false) (λ u. u.id ≢ user.id)
              (λ u miss e. ground arith) db.users apart);
      emails =
          Distinct-append (λ u. u.email) db.users user c.emails
            (All-imp (λ u. clashes user.id user.email u ≡ false) (λ u. u.email ≢ user.email)
              (λ u miss e. ground (arith, text_eq_iff u.email user.email)) db.users apart);
      strategy_ids = c.strategy_ids;
      strategy_nonzero = c.strategy_nonzero;
      strategy_users = known-append (λ s. s.user_id) db.users user db.strategies c.strategy_users;
      alert_ids = c.alert_ids;
      alert_users = known-append (λ a. a.user_id) db.users user db.alerts c.alert_users;
      alert_strategies = c.alert_strategies;
      key_ids = c.key_ids;
      key_pairs = c.key_pairs;
      key_users = known-append (λ k. k.user_id) db.users user db.api_keys c.key_users;
    }

pub create_user-IsConsistent :
    (new_uuid : Db → Uuid) (email password_hash : Text) (db : Db)
    → IsConsistent db
    → IsConsistent (create_user new_uuid email password_hash db).1
unfolding create_user
create_user-IsConsistent new_uuid email password_hash db c =
    let (fault, db') = next_fault db in
    let kept = next_fault-IsConsistent db c in
    let clash = is_empty (select_rows (clashes (new_uuid db') email) db'.users) in
    let after = create_user new_uuid email password_hash db in
    elim (Option-cases fault) [
      | inr (e, failed) ↦ let same : after.1 ≡ db' = ground arith in rw same kept
      | inl fine ↦ elim (Bool-cases clash) [
        | inr taken ↦ let same : after.1 ≡ db' = ground arith in rw same kept
        | inl fits ↦
            let user : User = record {
              id = new_uuid db';
              email = email;
              password_hash = password_hash;
              created_at = db'.clock;
              updated_at = db'.clock;
            } in
            let same : after.1 ≡ record db' { users = db'.users ++ user ∷ [] } = ground arith in
            rw same (insert_user-IsConsistent user db' fits kept)
      ]
    ]

-- The rows of the tables with another list of API keys.
abbrev with_keys : Db → List ApiKey → Db
with_keys db rows = record db { api_keys = rows }

-- Other API keys that keep the promises.
replace_keys-IsConsistent :
    (db : Db) (rows : List ApiKey)
    → Distinct (λ k. k.id) rows
    → Distinct key_pair rows
    → All (λ k. In k.user_id (known_users db.users)) rows
    → IsConsistent db
    → IsConsistent (with_keys db rows)
replace_keys-IsConsistent db rows ids pairs users c = record {
  user_ids = c.user_ids;
  emails = c.emails;
  strategy_ids = c.strategy_ids;
  strategy_nonzero = c.strategy_nonzero;
  strategy_users = c.strategy_users;
  alert_ids = c.alert_ids;
  alert_users = c.alert_users;
  alert_strategies = c.alert_strategies;
  key_ids = ids;
  key_pairs = pairs;
  key_users = users;
}

-- A row that the statement does not select has another user or provider.
other_pair :
    (user : Uuid) (provider : Text) (row : ApiKey)
    → key_selected user provider row ≡ false
    → key_pair row ≢ (user, provider)
unfolding key_selected
other_pair user provider row miss e =
    let same_user = ap (λ (p : Uuid × Text). p.0) e in
    let same_provider = ap (λ (p : Uuid × Text). p.1) e in
    ground (arith, text_eq_iff row.provider provider)

upsert_key-IsConsistent :
    (new_uuid : Db → Uuid) (violation : Err) (user : Uuid) (provider encrypted_key : Text) (db : Db)
    → IsConsistent db
    → IsConsistent (upsert_key new_uuid violation user provider encrypted_key db).1
unfolding upsert_key refused_key set_key
upsert_key-IsConsistent new_uuid violation user provider encrypted_key db c =
    let selected = key_selected user provider in
    let change = set_key encrypted_key db in
    let users = λ (k : ApiKey). In k.user_id (known_users db.users) in
    let after = upsert_key new_uuid violation user provider encrypted_key db in
    elim (Bool-cases (is_empty (select_rows selected db.api_keys))) [
      | inr there ↦
          let same : after.1 ≡ with_keys db (update_rows selected change db.api_keys) =
            ground arith in
          rw same (
            replace_keys-IsConsistent db (update_rows selected change db.api_keys)
              (Distinct-update_rows (λ k. k.id) selected change (λ k. refl) db.api_keys c.key_ids)
              (Distinct-update_rows key_pair selected change (λ k. refl) db.api_keys c.key_pairs)
              (All-update_rows users users selected change (λ k _ m. m) (λ k _ m. m) db.api_keys
                c.key_users)
              c)
      | inl new ↦ elim (Bool-cases (refused_key (new_uuid db) user db)) [
        | inl refused ↦ let same : after.1 ≡ db = ground arith in rw same c
        | inr fits ↦
            let row : ApiKey = record {
              id = new_uuid db;
              user_id = user;
              provider = provider;
              encrypted_key = encrypted_key;
              created_at = db.clock;
            } in
            let same : after.1 ≡ with_keys db (db.api_keys ++ row ∷ []) = ground arith in
            let pairs =
              All-imp (λ k. selected k ≡ false) (λ k. key_pair k ≢ (user, provider))
                (other_pair user provider) db.api_keys (none_selected selected db.api_keys new) in
            rw same (
              replace_keys-IsConsistent db (db.api_keys ++ row ∷ [])
                (Distinct-append (λ k. k.id) db.api_keys row c.key_ids
                  (not_looked_up (λ k. k.id) db.api_keys (new_uuid db) (ground arith)))
                (Distinct-append key_pair db.api_keys row c.key_pairs pairs)
                (All-append users db.api_keys row c.key_users
                  (In-looked_up (λ u. u.id) db.users user (ground arith)))
                c)
      ]
    ]

pub add_api_key-IsConsistent :
    (new_uuid : Db → Uuid) (violation : Err) (user : Uuid) (provider encrypted_key : Text) (db : Db)
    → IsConsistent db
    → IsConsistent (add_api_key new_uuid violation user provider encrypted_key db).1
unfolding add_api_key
add_api_key-IsConsistent new_uuid violation user provider encrypted_key db c =
    let (fault, db') = next_fault db in
    let kept = next_fault-IsConsistent db c in
    let after = add_api_key new_uuid violation user provider encrypted_key db in
    elim (Option-cases fault) [
      | inr (e, failed) ↦ let same : after.1 ≡ db' = ground arith in rw same kept
      | inl fine ↦
          let same : after.1 ≡ (upsert_key new_uuid violation user provider encrypted_key db').1 =
            ground arith in
          rw same (upsert_key-IsConsistent new_uuid violation user provider encrypted_key db' kept)
    ]

pub delete_api_key-IsConsistent :
    (user : Uuid) (provider : Text) (db : Db)
    → IsConsistent db
    → IsConsistent (delete_api_key user provider db).1
unfolding delete_api_key
delete_api_key-IsConsistent user provider db c =
    let (fault, db') = next_fault db in
    let kept = next_fault-IsConsistent db c in
    let selected = key_selected user provider in
    let rows = db'.api_keys in
    elim (Option-cases fault) [
      | inr (e, failed) ↦
          let same : (delete_api_key user provider db).1 ≡ db' = ground arith in rw same kept
      | inl fine ↦
          let same : (delete_api_key user provider db).1
              ≡ with_keys db' (delete_rows selected rows) =
            ground arith in
          rw same (
            replace_keys-IsConsistent db' (delete_rows selected rows)
              (Distinct-delete_rows (λ k. k.id) selected rows kept.key_ids)
              (Distinct-delete_rows key_pair selected rows kept.key_pairs)
              (All-delete_rows (λ k. In k.user_id (known_users db'.users)) selected rows
                kept.key_users)
              kept)
    ]

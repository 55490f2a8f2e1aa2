-- ===== src/Api/Accounts/SignIn.antt =====
-- internal/api/auth.go with internal/database/users.go: who can sign in after a registration.
use signalstream.Common.{
  ◌≡◌, refl, inl, inr, true, ◌||◌, List, [], ◌∷◌, ◌++◌, some, ok, Text, text_eq_refl, is_empty,
  Bool-cases, Result-cases, arith,
}
use signalstream.Database.{Uuid, User}
use signalstream.Database.Statements.{Db, select_rows}
use signalstream.Database.Statements.Rows.{select_rows-append}
use signalstream.Database.Statements.Faults.{next_fault-quiet}
use signalstream.Database.Users.{
  Creation, created, duplicate_email, not_created, has_email, clashes, create_user,
  get_user_by_email,
}
use signalstream.Api.{Response, Request, error_response}
use signalstream.Api.Accounts.{Credentials, Accounts, sign_in, handle_register, handle_login}

-- Without a clash no row has the email.
clashes-has_email :
    (id : Uuid) (email : Text) (rows : List User)
    → select_rows (clashes id email) rows ≡ []
    → select_rows (has_email email) rows ≡ []
unfolding select_rows clashes has_email
clashes-has_email id email [] h = refl
clashes-has_email id email (row ∷ rows) h = ground (arith, clashes-has_email id email rows)

-- The row of a new user, and the database with it.
abbrev new_row : (Db → Uuid) → Text → Text → Db → User
new_row new_uuid email hash db = record {
  id = new_uuid db;
  email = email;
  password_hash = hash;
  created_at = db.clock;
  updated_at = db.clock;
}

abbrev with_user : Db → User → Db
with_user db row = record db { users = db.users ++ row ∷ [] }

create_user-created :
    (new_uuid : Db → Uuid) (email hash : Text) (db db' : Db) (user : User)
    → db.faults ≡ []
    → create_user new_uuid email hash db ≡ (created user, db')
    → (select_rows (clashes (new_uuid db) email) db.users ≡ [])
      × (user ≡ new_row new_uuid email hash db)
      × (db' ≡ with_user db (new_row new_uuid email hash db))
unfolding create_user
create_user-created new_uuid email hash db db' user quiet h =
    let quiet' = next_fault-quiet db quiet in
    elim (Bool-cases (is_empty (select_rows (clashes (new_uuid db) email) db.users))) [
      | inr taken ↦ absurd (ground arith)
      | inl free ↦
          let made : create_user new_uuid email hash db ≡ (
            created (new_row new_uuid email hash db),
            with_user db (new_row new_uuid email hash db),
          ) =
            ground arith in
          (ground arith, ground arith, ground arith)
    ]

-- A search for the email of the only row with it finds that row.
get_user-with_user :
    (id : Uuid) (db : Db) (row : User)
    → db.faults ≡ []
    → select_rows (clashes id row.email) db.users ≡ []
    → get_user_by_email row.email (with_user db row) ≡ (ok (some row), with_user db row)
unfolding get_user_by_email
get_user-with_user id db row quiet free =
    let own : has_email row.email row ≡ true = unfold has_email in text_eq_refl row.email in
    ground (
      arith,
      next_fault-quiet (with_user db row) quiet,
      select_rows-append (has_email row.email) db.users row own,
      clashes-has_email id row.email db.users free,
    )

create_user-found :
    (new_uuid : Db → Uuid) (email hash : Text) (db db' : Db) (user : User)
    → db.faults ≡ []
    → create_user new_uuid email hash db ≡ (created user, db')
    → (get_user_by_email email db' ≡ (ok (some user), db')) × (user.password_hash ≡ hash)
create_user-found new_uuid email hash db db' user quiet h =
    let (free, same_user, same_db) = create_user-created new_uuid email hash db db' user quiet h in
    let row = new_row new_uuid email hash db in
    rw (same_user, same_db) (get_user-with_user (new_uuid db) db row quiet free, refl)

-- The documentation of bcrypt: a hash of a password is accepted with that password.
pub record BcryptLaw (a : Accounts) : Type 0 where
  pub check-hash :
      (password hash : Text) (db : Db)
      → a.hash_password password db ≡ ok hash
      → a.check_password_hash password hash ≡ true

-- What a successful registration rests on.
record Registers (a : Accounts) (c : Credentials) (db db' : Db) (answer : Response) : Type 0 where
  hash : Text
  user : User
  hashed : a.hash_password c.password db ≡ ok hash
  made : create_user a.new_uuid c.email hash db ≡ (created user, db')
  signed : sign_in a 201 user db' ≡ (answer, db')

module _ (a : Accounts) (law : BcryptLaw a) where
  handle_register-Registers :
      (r : Request) (c : Credentials) (db db' : Db) (answer : Response)
      → a.decode r.body ≡ ok c
      → handle_register a r db ≡ (answer, db')
      → answer.status ≡ 201
      → Registers a c db db' answer
  unfolding handle_register error_response sign_in
  handle_register-Registers r c db db' answer decoded h created_status =
      elim (Bool-cases (is_empty c.email || is_empty c.password)) [
        | inl missing ↦ absurd (ground arith)
        | inr given ↦ elim (Result-cases (a.hash_password c.password db)) [
          | inr (e, failed) ↦ absurd (ground arith)
          | inl (hash, hashed) ↦ go hash hashed (create_user a.new_uuid c.email hash db) refl
        ]
      ]
    where
      go :
          (hash : Text)
          → a.hash_password c.password db ≡ ok hash
          → (result : Creation × Db) → create_user a.new_uuid c.email hash db ≡ result
          → Registers a c db db' answer
      go hash hashed (duplicate_email, db₁) made = absurd (ground arith)
      go hash hashed (not_created e, db₁) made = absurd (ground arith)
      go hash hashed (created user, db₁) made =
          let same : db₁ ≡ db' = ground arith in
          record {
            hash = hash;
            user = user;
            hashed = hashed;
            made = ground arith;
            signed = ground arith;
          }

  sign_in-status :
      (user : User) (db : Db) (answer : Response)
      → sign_in a 201 user db ≡ (answer, db)
      → answer.status ≡ 201
      → sign_in a 200 user db ≡ (record answer { status = 200 }, db)
  unfolding sign_in error_response
  sign_in-status user db answer h created_status =
      elim (Result-cases (a.generate_token user.id user.email db)) [
        | inr (e, failed) ↦ absurd (ground arith)
        | inl (token, made) ↦ ground arith
      ]

  -- Who has registered can log in: if a registration answers 201 and the database fails no statement,
  -- then a login with the same credentials on the database that it leaves, at the same time, answers 200 with the same
  -- token, id and email, and changes nothing. The hypothesis: bcrypt accepts the hash of a password
  -- with that password.
  pub register-login :
      (r : Request) (c : Credentials) (db db' : Db) (answer : Response)
      → a.decode r.body ≡ ok c
      → db.faults ≡ []
      → handle_register a r db ≡ (answer, db')
      → answer.status ≡ 201
      → handle_login a r db' ≡ (record answer { status = 200 }, db')
  unfolding handle_login
  register-login r c db db' answer decoded quiet h created_status =
      let s = handle_register-Registers r c db db' answer decoded h created_status in
      let (found, hashed) =
        create_user-found a.new_uuid c.email s.hash db db' s.user quiet s.made in
      ground (
        arith,
        found,
        hashed,
        law.check-hash c.password s.hash db s.hashed,
        sign_in-status s.user db' answer s.signed created_status,
      )

-- ===== src/Api/Accounts.antt =====
-- internal/api/auth.go: registration and login. The parameters are the decoding of the JSON body,
-- bcrypt, the signing of a token, and `gen_random_uuid()`; they read the state for the clock and for
-- randomness.
pub mod SignIn
mod Tests
use signalstream.Common.{
  ℕ, Bool, true, false, ◌||◌, Option, none, some, Result, ok, err, Text, codes, is_empty,
  if◌then◌else◌,
}
use signalstream.Database.{Uuid, User}
use signalstream.Database.Statements.{Db}
use signalstream.Database.Users.{
  created, duplicate_email, not_created, create_user, get_user_by_email,
}
use signalstream.Api.{auth_body, Response, Request, Handler, error_response}

-- `registerRequest` and `loginRequest`
pub record Credentials : Type 0 where
  pub email : Text
  pub password : Text

pub record Accounts : Type 0 where
  pub decode : Text → Result Credentials
  pub hash_password : Text → Db → Result Text
  pub check_password_hash : Text → Text → Bool
  pub generate_token : Uuid → Text → Db → Result Text
  pub uuid_string : Uuid → Text
  pub new_uuid : Db → Uuid

module _ (a : Accounts) where
  -- The end of both handlers: the token for a user, and the answer with it.
  unfoldable pub sign_in : ℕ → User → Db → Response × Db
  sign_in status user db = elim (a.generate_token user.id user.email db) [
    | err e ↦ (error_response 500 (codes "failed to generate token"), db)
    | ok token ↦
        (record { status = status; body = auth_body token (a.uuid_string user.id) user.email }, db)
  ]

  unfoldable pub handle_register : Handler Db
  handle_register r db = elim (a.decode r.body) [
    | err e ↦ (error_response 400 (codes "invalid request body"), db)
    | ok c ↦
        if is_empty c.email || is_empty c.password
        then (error_response 400 (codes "email and password are required"), db)
        else elim (a.hash_password c.password db) [
          | err e ↦ (error_response 500 (codes "failed to hash password"), db)
          | ok hash ↦
              let (creation, db') = create_user a.new_uuid c.email hash db in
              elim creation [
                | duplicate_email ↦ (error_response 409 (codes "email already registered"), db')
                | not_created e ↦ (error_response 500 (codes "failed to create user"), db')
                | created user ↦ sign_in 201 user db'
              ]
        ]
  ]

  unfoldable pub handle_login : Handler Db
  handle_login r db = elim (a.decode r.body) [
    | err e ↦ (error_response 400 (codes "invalid request body"), db)
    | ok c ↦
        let (found, db') = get_user_by_email c.email db in
        elim found [
          | err e ↦ (error_response 500 (codes "database error"), db')
          | ok user ↦ elim user [
            | none ↦ (error_response 401 (codes "invalid credentials"), db')
            | some user ↦
                if a.check_password_hash c.password user.password_hash
                then sign_in 200 user db'
                else (error_response 401 (codes "invalid credentials"), db')
          ]
        ]
  ]

-- ===== src/Api/Server/Wired/Session.antt =====
-- internal/api/{auth,middleware,server}.go with internal/auth/jwt.go: from a login to the requests that
-- carry its token.
use signalstream.Common.{
  ℕ, ◌+◌, ◌/◌, ◌<◌, ◌≡◌, inl, inr, true, some, ok, Text, Bool-cases, Option-cases, Result-cases,
  ◌∙◌, sym, ap, arith,
}
use signalstream.Platform.{World}
use signalstream.Retry.{second}
use signalstream.Auth.Passwords.{check_password_hash}
use signalstream.Auth.Tokens.{lifetime, new_claims, generate_token}
use signalstream.Auth.Tokens.Lifetime.{JwtLaws, validate-generate}
use signalstream.Database.{User}
use signalstream.Database.Statements.{Db, next_fault}
use signalstream.Database.Users.{get_user_by_email}
use signalstream.Api.{auth_body, Response, Request, Handler, error_response, require_auth}
use signalstream.Api.Guard.{bearer, Authorized, require_auth-admits}
use signalstream.Api.Accounts.{Credentials, Accounts, sign_in, handle_login}
use signalstream.Api.Server.Wired.{Server, Outside, accounts, claims_of}

-- What a successful login rests on: a user with the email, the password, and the token.
record LogsIn (a : Accounts) (c : Credentials) (db : Db) (answer : Response) : Type 0 where
  user : User
  token : Text
  found : (get_user_by_email c.email db).0 ≡ ok (some user)
  matches : a.check_password_hash c.password user.password_hash ≡ true
  signed : a.generate_token user.id user.email (get_user_by_email c.email db).1 ≡ ok token
  shown : answer.body ≡ auth_body token (a.uuid_string user.id) user.email

handle_login-LogsIn :
    (a : Accounts) (r : Request) (c : Credentials) (db db' : Db) (answer : Response)
    → a.decode r.body ≡ ok c
    → handle_login a r db ≡ (answer, db')
    → answer.status ≡ 200
    → LogsIn a c db answer
unfolding handle_login sign_in error_response
handle_login-LogsIn a r c db db' answer decoded h fine =
    let q = get_user_by_email c.email db in
    elim (Result-cases q.0) [
      | inr (e, failed) ↦ absurd (ground arith)
      | inl (row, found) ↦ elim (Option-cases row) [
        | inl missing ↦ absurd (ground arith)
        | inr (user, there) ↦
            elim (Bool-cases (a.check_password_hash c.password user.password_hash)) [
              | inr wrong ↦ absurd (ground arith)
              | inl right ↦ elim (Result-cases (a.generate_token user.id user.email q.1)) [
                | inr (e, failed) ↦ absurd (ground arith)
                | inl (token, signed) ↦ record {
                  user = user;
                  token = token;
                  found = ground arith;
                  matches = right;
                  signed = signed;
                  shown = ground arith;
                }
              ]
            ]
      ]
    ]

clock-get_user_by_email :
    (email : Text) (db : Db) → ((get_user_by_email email db).1).clock ≡ db.clock
unfolding get_user_by_email next_fault
clock-get_user_by_email email db = ground arith

auth_body-token : (t t' i i' e e' : Text) → auth_body t i e ≡ auth_body t' i' e' → t ≡ t'
auth_body-token t t' i i' e e' q = ground arith

module _ {B E : Type 0} (outside : Outside B E) (server : Server) (laws : JwtLaws outside.jwt) where
  -- The check of the token accepts a header with a token that was signed less than its lifetime ago.
  signed-Authorized :
      (user : User) (token : Text) (made : ℕ) (r : Request) (s : World E × Db)
      → generate_token outside.jwt server.tokens user.id user.email made ≡ ok token
      → r.authorization ≡ bearer token
      → s.1.clock / second < (made + lifetime) / second
      → Authorized (claims_of outside server) r s (record { user_id = user.id; email = user.email })
  unfolding claims_of new_claims generate_token
  signed-Authorized user token made r s signed header early =
      let accepted =
        (validate-generate outside.jwt laws server.tokens user.id user.email token made s.1.clock
            signed).1
          early in
      record {
        token = token;
        header = header;
        one_word =
            laws.one_word server.tokens.secret token (new_claims user.id user.email made) signed;
        valid = ground (arith, accepted);
      }

  -- A login whose body is decoded and that is answered with 200 names a user of the database whose hash the
  -- password matches, and a request whose header carries the token of the answer reaches the protected
  -- handler with the id and the email of that user, as long as the clock has not reached the second in
  -- which the token is 24 hours old. The condition: the JWT library signs and parses tokens as it
  -- documents, and its tokens hold no space.
  pub login-admits :
      (r r' : Request) (c : Credentials) (db db' : Db) (answer : Response)
      (token id_text email : Text)
      → (next : Handler (World E × Db)) (s : World E × Db)
      → outside.decode_credentials r.body ≡ ok c
      → handle_login (accounts outside server) r db ≡ (answer, db')
      → answer.status ≡ 200
      → answer.body ≡ auth_body token id_text email
      → r'.authorization ≡ bearer token
      → s.1.clock / second < (db.clock + lifetime) / second
      → (user : User) × ((get_user_by_email c.email db).0 ≡ ok (some user))
        × (check_password_hash outside.bcrypt c.password user.password_hash ≡ true)
        × (require_auth (claims_of outside server) next r' s
            ≡ next
                (record r' { claims = some (record { user_id = user.id; email = user.email }) })
                s)
  login-admits r r' c db db' answer token id_text email next s decoded h fine body header early =
      let l = handle_login-LogsIn (accounts outside server) r c db db' answer decoded h fine in
      let same =
        auth_body-token token l.token id_text (outside.uuid_string l.user.id) email l.user.email
          (sym body ∙ l.shown) in
      let made = ((get_user_by_email c.email db).1).clock in
      let still = clock-get_user_by_email c.email db in
      let header' : r'.authorization ≡ bearer l.token = header ∙ ap bearer same in
      let early' : s.1.clock / second < (made + lifetime) / second = rw still early in
      let a = signed-Authorized l.user l.token made r' s l.signed header' early' in
      (
        l.user,
        l.found,
        l.matches,
        require_auth-admits (claims_of outside server) next r' s
            (record { user_id = l.user.id; email = l.user.email }) a,
      )

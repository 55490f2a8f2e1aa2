-- ===== src/Api/Server/Tests.antt =====
-- The server with one user who has registered, and the theorems at requests to it.
use signalstream.Api.Server.Toy.{outside, server, no_stream}
use signalstream.Common.{
  ◌≡◌, ◌⊎◌, refl, inl, inr, true, [], ◌∷◌, none, some, ok, codes, text_eq, arith,
}
use signalstream.Auth.Tokens.{generate_token, new_claims}
use signalstream.Auth.Passwords.{check_password_hash}
use signalstream.Auth.Tokens.Toy as Tokens
use signalstream.Database.{User}
use signalstream.Database.Statements.{Db, next_fault, select_rows}
use signalstream.Database.Users.{get_user_by_email, has_email}
use signalstream.Api.{Claims, Request, auth_body, require_auth}
use signalstream.Api.Guard.{Authorized, bearer}
use signalstream.Api.Accounts.{handle_login, sign_in}
use signalstream.Api.Server.Protected.{Refuses, serve-Protected}
use signalstream.Api.Server.Wired.{claims_of, handlers, answer}
use signalstream.Api.Server.Wired.Session.{login-admits}
use signalstream.Samples.{config, world}

abbrev ann : User
ann = record {
  id = 0;
  email = codes "ann";
  password_hash = codes "secret";
  created_at = 1;
  updated_at = 1;
}

abbrev one_user : Db
one_user = record {
  strategies = [];
  alerts = [];
  users = ann ∷ [];
  api_keys = [];
  clock = 5;
  faults = [];
  schema = record { tables = []; indexes = [] };
}

abbrev login : Request
login = record {
  method = codes "POST";
  path = codes "/api/v1/auth/login";
  authorization = [];
  parameter = λ key. [];
  body = codes "ann";
  claims = none;
}

abbrev listing : Request
listing = record login {
  method = codes "GET";
  path = codes "/api/v1/keys";
  authorization = bearer (codes "token");
}

serve-Protected_example :
    let (reply, s') = answer outside server no_stream listing (world, one_user) in
    ((claims : Claims) × Authorized (claims_of outside server) listing (world, one_user) claims)
    ⊎ ((s' ≡ (world, one_user))
        × ((listing.method ≡ codes "OPTIONS") ⊎ Refuses reply.response.status))
unfolding answer
serve-Protected_example =
    serve-Protected (claims_of outside server) config.frontend_url
      (handlers outside server no_stream) listing (world, one_user)
      (λ p. elim p [
        | inl e ↦ ground arith
        | inr q ↦ elim q [ inl e ↦ ground arith | inr e ↦ ground arith ]
      ])

login-admits_example :
    (user : User) × ((get_user_by_email (codes "ann") one_user).0 ≡ ok (some user))
    × (check_password_hash outside.bcrypt (codes "secret") user.password_hash ≡ true)
    × (require_auth (claims_of outside server) no_stream listing (world, one_user)
        ≡ no_stream
            (record listing { claims = some (record { user_id = user.id; email = user.email }) })
            (world, one_user))
unfolding handle_login check_password_hash sign_in get_user_by_email next_fault select_rows
    has_email text_eq generate_token new_claims
login-admits_example =
    login-admits outside server Tokens.toy-laws login listing
      (record { email = codes "ann"; password = codes "secret" }) one_user one_user
      (record { status = 200; body = auth_body (codes "token") [] (codes "ann") }) (codes "token")
      [] (codes "ann") no_stream (world, one_user) refl refl refl refl refl (omega arith)

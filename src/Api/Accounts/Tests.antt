-- ===== src/Api/Accounts/Tests.antt =====
-- A toy hash that keeps the password, and the theorem at it.
use signalstream.Common.{
  ◌≡◌, refl, [], ◌∷◌, none, ok, Text, codes, text_eq, text_eq_iff, length, arith, true,
}
use signalstream.Database.{User}
use signalstream.Database.Statements.{Db, next_fault, select_rows}
use signalstream.Database.Users.{create_user}
use signalstream.Api.{Request, Response, auth_body}
use signalstream.Api.Accounts.{Accounts, sign_in, handle_register, handle_login}
use signalstream.Api.Accounts.SignIn.{BcryptLaw, register-login}

abbrev toy : Accounts
toy = record {
  decode = λ body. ok (record { email = body; password = codes "secret" });
  hash_password = λ password db. ok password;
  check_password_hash = text_eq;
  generate_token = λ id email db. ok email;
  uuid_string = λ id. [];
  new_uuid = λ db. length db.users;
}

toy_check-hash :
    (password hash : Text) (db : Db)
    → toy.hash_password password db ≡ ok hash
    → toy.check_password_hash password hash ≡ true
toy_check-hash password hash db e = ground (arith, text_eq_iff password hash)

toy-law : BcryptLaw toy
toy-law = record { check-hash = toy_check-hash }

abbrev no_users : Db
no_users = record {
  strategies = [];
  alerts = [];
  users = [];
  api_keys = [];
  clock = 5;
  faults = [];
  schema = record { tables = []; indexes = [] };
}

abbrev request : Request
request = record {
  method = codes "POST";
  path = codes "/";
  authorization = [];
  parameter = λ key. [];
  body = codes "ann";
  claims = none;
}

abbrev ann : User
ann = record {
  id = 0;
  email = codes "ann";
  password_hash = codes "secret";
  created_at = 5;
  updated_at = 5;
}

abbrev answer : Response
answer = record { status = 201; body = auth_body (codes "ann") [] (codes "ann") }

abbrev one_user : Db
one_user = record no_users { users = ann ∷ [] }

register-login_example :
    handle_login toy request one_user ≡ (record answer { status = 200 }, one_user)
unfolding handle_register create_user next_fault select_rows sign_in
register-login_example =
    register-login toy toy-law request (record { email = codes "ann"; password = codes "secret" })
      no_users one_user answer refl refl refl refl

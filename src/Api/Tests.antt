-- ===== src/Api/Tests.antt =====
-- A database with a strategy of each of two users, and requests with a token.
use signalstream.Common.{
  ℕ, ◌≡◌, ◌⊎◌, inl, inr, true, false, refl, [], ◌∷◌, none, some, Result, ok, err, plain, Text,
  codes, text_eq, if◌then◌else◌, arith,
}
use signalstream.Database.{User, Strategy, Alert}
use signalstream.Database.Consistent.{IsConsistent}
use signalstream.Database.Statements.{Db, get_strategy, next_fault, select_rows, strategy_selected}
use signalstream.Database.Statements.Ownership.{SameForeign}
use signalstream.Api.{
  Claims, Request, require_auth, error_response, split_spaces, push, bearer_token,
}
use signalstream.Api.Guard.{Authorized, Guards, require_auth-Guards}
use signalstream.Api.Handlers.{handle_toggle_strategy}
use signalstream.Api.Handlers.Isolation.{deletes_strategy, write_handler, write-isolated}
use signalstream.Api.Handlers.Toggle.{toggled}
use signalstream.Api.Handlers.Race.{waiting, interleave, shows, toggles_may_collide}
use signalstream.Samples.{strategy}

abbrev mine : Strategy
mine = record strategy { owner_email = [] }

abbrev other : Strategy
other = record mine { id = 8; user_id = 10 }

abbrev user : ℕ → Text → User
user id email = record {
  id = id;
  email = email;
  password_hash = [];
  created_at = 1;
  updated_at = 1;
}

abbrev alert_of : Strategy → Alert
alert_of s = record {
  id = s.id;
  user_id = s.user_id;
  strategy_id = s.id;
  event_id = codes "e1";
  title = [];
  content = [];
  url = [];
  similarity_score = 0;
  is_read = false;
  created_at = 1;
}

abbrev db : Db
db = record {
  strategies = other ∷ mine ∷ [];
  alerts = alert_of other ∷ alert_of mine ∷ [];
  users = user 9 (codes "ann@x") ∷ user 10 (codes "bob@x") ∷ [];
  api_keys = [];
  clock = 77;
  faults = [];
  schema = record { tables = []; indexes = [] };
}

db-IsConsistent : IsConsistent db
db-IsConsistent = record {
  user_ids = (((λ e. ground arith), tt), (tt, tt));
  emails = (((λ e. ground arith), tt), (tt, tt));
  strategy_ids = (((λ e. ground arith), tt), (tt, tt));
  strategy_nonzero = ((λ e. ground arith), ((λ e. ground arith), tt));
  strategy_users = (inr (inl refl), (inl refl, tt));
  alert_ids = (((λ e. ground arith), tt), (tt, tt));
  alert_users = (inr (inl refl), (inl refl, tt));
  alert_strategies = (inr (inl refl), (inr (inr (inl refl)), tt));
  key_ids = tt;
  key_pairs = tt;
  key_users = tt;
}

-- The tokens are the names of two users.
abbrev validate_token : Text → Db → Result Claims
validate_token token s =
    if text_eq token (codes "ann")
    then ok (record { user_id = 9; email = codes "ann@x" })
    else err (plain (codes "invalid token"))

abbrev parse_uuid : Text → Result ℕ
parse_uuid t = if text_eq t (codes "7") then ok 7 else err (plain (codes "invalid UUID"))

abbrev request : Request
request = record {
  method = codes "POST";
  path = codes "/";
  authorization = codes "Bearer ann";
  parameter = λ key. codes "7";
  body = [];
  claims = none;
}

abbrev known : Request
known = record request { claims = some (record { user_id = 9; email = codes "ann@x" }) }

no_token :
    require_auth validate_token
      (handle_toggle_strategy parse_uuid)
      (record request { authorization = codes "Bearer  ann" })
      db
    ≡ (error_response 401 (codes "invalid authorization header format"), db)
unfolding require_auth split_spaces push bearer_token
no_token = refl

require_auth-Guards_example :
    Guards validate_token
      (handle_toggle_strategy parse_uuid)
      request
      db
      (require_auth validate_token (handle_toggle_strategy parse_uuid) request db)
require_auth-Guards_example =
    require_auth-Guards validate_token (handle_toggle_strategy parse_uuid) request db

write-isolated_example :
    let handler = write_handler parse_uuid deletes_strategy in
    let db' = (require_auth validate_token handler request db).1 in
    (db' ≡ db)
    ⊎ ((claims : Claims) × Authorized validate_token request db claims
        × SameForeign claims.user_id db db')
write-isolated_example =
    write-isolated parse_uuid validate_token deletes_strategy request db db-IsConsistent

toggles_may_collide_example :
    let claims : Claims = record { user_id = 9; email = codes "ann@x" } in
    let once = toggled 77 mine in
    let twice = toggled 77 once in
    let apart = interleave 7 claims (false ∷ false ∷ true ∷ true ∷ []) ((waiting, waiting), db) in
    let across = interleave 7 claims (false ∷ true ∷ false ∷ true ∷ []) ((waiting, waiting), db) in
    (apart.0 ≡ (shows 7 claims once, shows 7 claims twice))
    × ((get_strategy 7 9 apart.1).0 ≡ ok (some twice))
    × (twice.is_active ≡ mine.is_active)
    × (across.0 ≡ (shows 7 claims once, shows 7 claims once))
    × ((get_strategy 7 9 across.1).0 ≡ ok (some once))
unfolding get_strategy next_fault select_rows strategy_selected
toggles_may_collide_example =
    toggles_may_collide 7 (record { user_id = 9; email = codes "ann@x" }) mine db refl refl

-- ===== src/Database/Tests.antt =====
-- A database with one user, a strategy and three alerts, and the theorems at it.
use signalstream.Common.{ℕ, ◌≡◌, ◌↔◌, refl, false, List, [], ◌∷◌, ok, plain, codes, In}
use signalstream.Database.{User, Strategy, Alert}
use signalstream.Database.Schema.{Schema, migrate}
use signalstream.Database.Schema.Embedded.{embedded, create_alerts}
use signalstream.Database.Statements.{Db}
use signalstream.Database.Strategies.{get_all_active_strategies}
use signalstream.Database.Strategies.Active.{IsActiveOf, get_all_active_iff}
use signalstream.Samples.{strategy}

abbrev empty_schema : Schema
empty_schema = record { tables = []; indexes = [] }

abbrev migrated : Schema
migrated = (migrate (λ st. plain []) (ok embedded) empty_schema).1

-- The schema that the second migration alone makes.
abbrev intended : Schema
intended =
    (migrate (λ st. plain [])
      (ok (record { name = codes "002"; is_dir = false; content = ok create_alerts } ∷ []))
      empty_schema).1

abbrev ann : User
ann = record { id = 9; email = codes "ann"; password_hash = []; created_at = 1; updated_at = 1 }

abbrev alert_at : ℕ → Alert
alert_at time = record {
  id = time;
  user_id = 9;
  strategy_id = 7;
  event_id = codes "e1";
  title = codes "Merger";
  content = [];
  url = [];
  similarity_score = 0;
  is_read = false;
  created_at = time;
}

abbrev three_alerts : Db
three_alerts = record {
  strategies = strategy ∷ [];
  alerts = alert_at 1 ∷ alert_at 3 ∷ alert_at 2 ∷ [];
  users = ann ∷ [];
  api_keys = [];
  clock = 5;
  faults = [];
  schema = intended;
}

get_all_active_iff_example :
    (given : List Strategy) × (get_all_active_strategies three_alerts ≡ (ok given, three_alerts))
    × ((t : Strategy) → In t given ↔ IsActiveOf (ann ∷ []) (strategy ∷ []) t)
get_all_active_iff_example = get_all_active_iff three_alerts refl

abbrev set_up : Db
set_up = record three_alerts { alerts = []; schema = migrated }

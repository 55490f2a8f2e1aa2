-- ===== src/Database/Consistent/Interleaved/Tests.antt =====
-- A strategy that is deleted between its loading and its alert.
use signalstream.Common.{refl, inl, false, [], ◌∷◌, codes, arith}
use signalstream.Database.{User, Strategy, Alert}
use signalstream.Database.Postgres.Toy.{toy}
use signalstream.Database.Statements.{Db, next_fault, delete_strategy, select_rows}
use signalstream.Database.Strategies.{
  create_strategy, new_strategy, refused_strategy, get_all_active_strategies, join_users, join_user,
}
use signalstream.Database.Alerts.{create_alert}
use signalstream.Database.Consistent.{IsConsistent}
use signalstream.Database.Consistent.Interleaved.{
  Tables, creates, loads, deletes, alerts, Reach, here, later, IsTracked,
}
use signalstream.Database.Consistent.Interleaved.Tracked.{Reach-IsTracked}
use signalstream.Samples.{strategy}

abbrev ann : User
ann = record { id = 9; email = codes "ann"; password_hash = []; created_at = 1; updated_at = 1 }

abbrev one_user : Db
one_user = record {
  strategies = [];
  alerts = [];
  users = ann ∷ [];
  api_keys = [];
  clock = 5;
  faults = [];
  schema = record { tables = []; indexes = [] };
}

one_user-IsConsistent : IsConsistent one_user
one_user-IsConsistent = record {
  user_ids = (tt, tt);
  emails = (tt, tt);
  strategy_ids = tt;
  strategy_nonzero = tt;
  strategy_users = tt;
  alert_ids = tt;
  alert_users = tt;
  alert_strategies = tt;
  key_ids = tt;
  key_pairs = tt;
  key_users = tt;
}

abbrev start : Tables
start = record { db = one_user; inserted = []; given = [] }

abbrev created : Tables
created = record {
  db = (create_strategy toy strategy one_user).1;
  inserted = (2, 9) ∷ [];
  given = [];
}

-- The row with the email of its user.
abbrev row : Strategy
row = record strategy { id = 2; created_at = 5; updated_at = 5; owner_email = codes "ann" }

abbrev loaded : Tables
loaded = record created { given = row ∷ [] }

abbrev deleted : Tables
deleted = record loaded { db = (delete_strategy 2 9 created.db).1 }

abbrev alert : Alert
alert = record {
  id = 0;
  user_id = 9;
  strategy_id = 2;
  event_id = codes "e1";
  title = [];
  content = [];
  url = [];
  similarity_score = 0;
  is_read = false;
  created_at = 0;
}

abbrev alerted : Tables
alerted = record deleted { db = (create_alert toy alert deleted.db).1 }

alerted-Reach : Reach toy start alerted
unfolding create_strategy new_strategy refused_strategy get_all_active_strategies join_users
    join_user next_fault select_rows
alerted-Reach =
    later
      (later
        (later (later here (creates strategy (λ e. ground arith) (λ user m. m)))
          (loads (row ∷ []) created.db refl))
        (deletes 2 9))
      (alerts row alert (inl refl) refl refl)

Reach-IsTracked_example : IsTracked toy alerted
Reach-IsTracked_example =
    Reach-IsTracked toy one_user alerted one_user-IsConsistent refl alerted-Reach

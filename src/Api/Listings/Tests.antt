-- ===== src/Api/Listings/Tests.antt =====
-- A request for the two newest alerts behind the first one.
use signalstream.Common.{
  ℕ, ◌≡◌, refl, false, List, [], ◌∷◌, some, err, plain, codes, text_eq, itoa, digits_from,
  if◌then◌else◌, arith,
}
use signalstream.Database.{Alert}
use signalstream.Database.Statements.{Db}
use signalstream.Database.Schema.{names, columns_of, has_column, has_columns}
use signalstream.Database.Postgres.Toy as Postgres
use signalstream.Database.Alerts.{selected_columns}
use signalstream.Database.Alerts.Pages.{IsPage}
use signalstream.Api.{Claims, Request, alerts_body}
use signalstream.Api.Listings.{Service, handle_list_alerts}
use signalstream.Api.Listings.Paging.{handle_list_alerts-IsPage}

abbrev service : Service
service = record { pg = Postgres.toy; decode = λ body. err (plain []); uuid_string = λ id. [] }

abbrev alert_of : ℕ → ℕ → Alert
alert_of user time = record {
  id = time;
  user_id = user;
  strategy_id = 7;
  event_id = codes "e1";
  title = codes "Merger";
  content = [];
  url = [];
  similarity_score = 0;
  is_read = false;
  created_at = time;
}

abbrev alerts : Db
alerts = record {
  strategies = [];
  alerts = alert_of 9 1 ∷ alert_of 9 3 ∷ alert_of 8 2 ∷ alert_of 9 4 ∷ [];
  users = [];
  api_keys = [];
  clock = 5;
  faults = [];
  schema = record { tables = (codes "alerts", selected_columns) ∷ []; indexes = [] };
}

abbrev ann : Claims
ann = record { user_id = 9; email = codes "ann" }

abbrev request : Request
request = record {
  method = codes "GET";
  path = codes "/api/v1/alerts";
  authorization = [];
  parameter = λ key. if text_eq key (codes "limit") then codes "2" else codes "1";
  body = [];
  claims = some ann;
}

handle_list_alerts-IsPage_example :
    (shown : List Alert) × (handle_list_alerts service request alerts
      ≡ (record { status = 200; body = alerts_body shown }, alerts))
    × IsPage Postgres.toy 9 alerts 2 shown
unfolding text_eq names columns_of has_column has_columns itoa digits_from
handle_list_alerts-IsPage_example =
    handle_list_alerts-IsPage service request ann 2 1 alerts Postgres.toy-law refl refl refl
      (omega arith) (omega arith) refl refl

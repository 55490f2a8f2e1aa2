-- ===== src/Pipeline/Consistent.antt =====
-- cmd/signalstream/main.go: the database over the life of the process. Requests and checked events come one
-- after the other; between them the clock and what the driver will fail change.
mod Tests
use signalstream.Common.{Bool, ℕ, ◌≡◌, ◌≢◌, [], Failure, List, subst, sym}
use signalstream.Platform.{NormalizedEvent, World}
use signalstream.Database.{Alert}
use signalstream.Sse.Stream.{Happening}
use signalstream.Api.Streaming.{BrokerOf, stream_handler}
use signalstream.Database.Schema.{Schema}
use signalstream.Database.Statements.{Db}
use signalstream.Database.Consistent.{IsConsistent}
use signalstream.Database.Consistent.Lookups.{moment-IsConsistent}
use signalstream.Notification.Delivery.{Site, Delivering}
use signalstream.Alerter.Service.{check_event_against_strategies}
use signalstream.Api.{Request, Handler}
use signalstream.Api.Server.Wired.{Server, Outside, answer}
use signalstream.Api.Consistent.{Holds, answer-IsConsistent}
use signalstream.Api.Consistent.Kept.{Keeps}
use signalstream.Pipeline.Alerts.{Answers, main_service}
use signalstream.Pipeline.Alerts.Consistent.{check_event-IsConsistent}

-- The tables before anyone has registered.
abbrev pub empty_db : ℕ → List Failure → Schema → Db
empty_db clock faults schema = record {
  strategies = [];
  alerts = [];
  users = [];
  api_keys = [];
  clock = clock;
  faults = faults;
  schema = schema;
}

module _ {B E C : Type 0} (outside : Outside B E) (server : Server) (d : Delivering) (a : Answers C)
    (broker : BrokerOf E) where
  -- The stream of alerts of one connection.
  abbrev pub stream : Bool → List (Happening Alert) → Handler (World E × Db)
  stream = stream_handler d.marshal outside.uuid_string broker

  pub data Change (db : Db) : Db → Type 0 where
    answers :
        (flusher : Bool) (happenings : List (Happening Alert)) (r : Request) (w : World E)
        → Change db (answer outside server (stream flusher happenings) r (w, db)).1.1
    checks :
        (ctx : C) (event : NormalizedEvent) (w : World Site)
        → w.env.db ≡ db
        → Change db (check_event_against_strategies (main_service d a) ctx event w).env.db
    passes :
        (clock : ℕ) (faults : List Failure)
        → Change db (record db { clock = clock; faults = faults })

  pub data Reach : Db → Type 0 where
    begin :
        (clock : ℕ) (faults : List Failure) (schema : Schema) → Reach (empty_db clock faults schema)
    later : {db db' : Db} → Reach db → Change db db' → Reach db'

  empty_db-IsConsistent :
      (clock : ℕ) (faults : List Failure) (schema : Schema)
      → IsConsistent (empty_db clock faults schema)
  empty_db-IsConsistent clock faults schema = record {
    user_ids = tt;
    emails = tt;
    strategy_ids = tt;
    strategy_nonzero = tt;
    strategy_users = tt;
    alert_ids = tt;
    alert_users = tt;
    alert_strategies = tt;
    key_ids = tt;
    key_pairs = tt;
    key_users = tt;
  }

  stream-Keeps :
      (flusher : Bool) (happenings : List (Happening Alert))
      → Keeps (Holds outside server) (stream flusher happenings)
  unfolding stream_handler
  stream-Keeps flusher happenings r (w, db) c = c

  module _ (nonzero : (db : Db) → outside.pg.new_uuid db ≢ 0) where
    Change-IsConsistent : {db db' : Db} → Change db db' → IsConsistent db → IsConsistent db'
    Change-IsConsistent {db = db} (answers flusher happenings r w) c =
        answer-IsConsistent outside server (stream flusher happenings) nonzero
          (stream-Keeps flusher happenings) r w db c
    Change-IsConsistent (checks ctx event w same) c =
        check_event-IsConsistent d a ctx event w (subst IsConsistent (sym same) c)
    Change-IsConsistent {db = db} (passes clock faults) c = moment-IsConsistent clock faults db c

    -- From empty tables, after any requests to the server and any events that the alerter has checked, one
    -- after the other in any order, the ids of each table, the emails, and the user and provider of the
    -- API keys are distinct, every row's user exists, and an alert's strategy is NULL or exists and
    -- belongs to the alert's user; whatever the requests are, and whichever statements the driver fails.
    -- The condition: the database never generates the zero UUID for a request.
    pub Reach-IsConsistent : {db : Db} → Reach db → IsConsistent db
    Reach-IsConsistent (begin clock faults schema) = empty_db-IsConsistent clock faults schema
    Reach-IsConsistent (later before change) =
        Change-IsConsistent change (Reach-IsConsistent before)

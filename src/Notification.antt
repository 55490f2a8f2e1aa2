-- ===== src/Notification.antt =====
-- internal/notification: the delivery of an alert to a log, to the database and to connected
-- browsers. The insertion into the table and the broadcast are parameters.
pub mod Fanout
pub mod Delivery
mod Tests
use signalstream.Common.{
  Bool, false, List, [], ◌∷◌, Option, none, some, Failure, Err, Result, ok, err, Text,
}
use signalstream.Database.{Uuid, Float32, Float64, Alert}
use signalstream.Platform.{World, Action}

pub record AlertData : Type 0 where
  pub user_id : Uuid
  pub strategy_id : Uuid
  pub strategy_description : Text
  pub recipient : Text
  pub event_id : Text
  pub event_title : Text
  pub event_source : Text
  pub event_url : Text
  pub event_content : Text
  pub similarity_score : Float32
  pub similarity_threshold : Float32

-- The interface `Notifier`
abbrev pub Notifier : Type 0 → Type 0
Notifier E = AlertData → Action E Failure

-- The row that `DatabaseNotifier.Send` inserts; the database fills in the identity and the time.
unfoldable pub alert_row : (Float32 → Float64) → AlertData → Alert
alert_row widen alert = record {
  id = 0;
  user_id = alert.user_id;
  strategy_id = alert.strategy_id;
  event_id = alert.event_id;
  title = alert.event_title;
  content = alert.strategy_description;
  url = alert.event_url;
  similarity_score = widen alert.similarity_score;
  is_read = false;
  created_at = 0;
}

-- `err != nil && firstErr == nil` decides whether an error is kept.
unfoldable pub keep_first : Failure → Failure → Failure
keep_first (some first) failure = some first
keep_first none failure = failure

module _ {E : Type 0} where
  -- `LogNotifier.Send`, which writes a log record and cannot fail.
  unfoldable pub log_send : Notifier E
  log_send alert w = (none, w)

  -- `DatabaseNotifier.Send`; without a broker the alert is stored only.
  unfoldable pub database_send :
      (Float32 → Float64)
      → (Uuid → Text)
      → (Alert → Action E (Result Alert))
      → Option (Text → Alert → World E → World E)
      → Notifier E
  database_send widen uuid_string create_alert broker alert w =
      let (reply, w') = create_alert (alert_row widen alert) w in
      elim reply [
        | err e ↦ (some e, w')
        | ok row ↦ elim broker [
          | none ↦ (none, w')
          | some broadcast ↦ (none, broadcast (uuid_string alert.user_id) row w')
        ]
      ]

  -- The loop of `MultiNotifier.Send`
  unfoldable pub send_from : Failure → List (Notifier E) → Notifier E
  send_from first [] alert w = (first, w)
  send_from first (n ∷ ns) alert w =
      let (failure, w') = n alert w in send_from (keep_first first failure) ns alert w'

  unfoldable pub multi_send : List (Notifier E) → Notifier E
  multi_send notifiers alert w = send_from none notifiers alert w

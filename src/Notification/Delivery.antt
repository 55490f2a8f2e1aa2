-- ===== src/Notification/Delivery.antt =====
-- cmd/signalstream/main.go with internal/notification, internal/database and internal/sse: the notifier
-- that `main` gives to the alerter, over the database and the broker. `none` as a broker is a panic of the
-- process.
pub mod Reached
pub mod Schema
pub mod Toy
mod Tests
use signalstream.Common.{List, [], ◌∷◌, Option, none, some, Result, Failure, Text}
use signalstream.Platform.{World, Action}
use signalstream.Database.{Uuid, Float32, Float64, Alert}
use signalstream.Database.Statements.{Db}
use signalstream.Database.Postgres.{Postgres}
use signalstream.Database.Alerts.{create_alert}
use signalstream.Sse.{Broker, broadcast}
use signalstream.Notification.{Notifier, log_send, database_send, multi_send}

pub record Site : Type 0 where
  pub db : Db
  pub broker : Option Broker

-- `marshal` is `json.Marshal`, `widen` the conversion of a float32 to a float64.
pub record Delivering : Type 1 where
  pub pg : Postgres
  pub marshal : Alert → Result Text
  pub widen : Float32 → Float64
  pub uuid_string : Uuid → Text

module _ (d : Delivering) where
  -- `CreateAlert`
  unfoldable pub store : Alert → Action Site (Result Alert)
  store alert w =
      let (reply, db') = create_alert d.pg alert w.env.db in
      (reply, record w { env = record (w.env) { db = db' } })

  -- `Broadcast`
  unfoldable pub publish : Text → Alert → World Site → World Site
  publish user alert w = elim w.env.broker [
    | none ↦ w
    | some b ↦ record w { env = record (w.env) { broker = broadcast d.marshal user alert b } }
  ]

  -- `logNotifier`, `dbNotifier` and `notifier` of `main`
  unfoldable pub db_notifier : Notifier Site
  db_notifier = database_send d.widen d.uuid_string store (some publish)

  unfoldable pub main_notifier : Notifier Site
  main_notifier = multi_send (log_send ∷ db_notifier ∷ [])

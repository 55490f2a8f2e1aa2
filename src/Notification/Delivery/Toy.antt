-- ===== src/Notification/Delivery/Toy.antt =====
-- A site with one user, who has one session and one strategy.
use signalstream.Common.{[], ◌∷◌, some, ok, codes}
use signalstream.Platform.{World}
use signalstream.Database.{User}
use signalstream.Database.Schema.{Schema}
use signalstream.Database.Postgres.Toy as Postgres
use signalstream.Database.Alerts.{inserted_columns}
use signalstream.Sse.{Broker, new_broker, subscribe}
use signalstream.Sse.Invariant.{IsSound, subscribe-IsSound}
use signalstream.Sse.Race.{new_broker-IsSound}
use signalstream.Notification.{AlertData}
use signalstream.Notification.Delivery.{Site, Delivering}
use signalstream.Samples.{exact_ops, event, strategy, world}
use signalstream.Alerter.Service.{alert_data}

abbrev pub delivering : Delivering
delivering = record {
  pg = Postgres.toy;
  marshal = λ alert. ok alert.title;
  widen = λ x. x;
  uuid_string = λ id. codes "ann";
}

abbrev pub alert : AlertData
alert = alert_data exact_ops event strategy 6

abbrev pub ann : User
ann = record {
  id = alert.user_id;
  email = codes "ann";
  password_hash = [];
  created_at = 1;
  updated_at = 1;
}

abbrev pub broker : Broker
broker = (subscribe (codes "ann") new_broker).1

pub broker-IsSound : IsSound broker
broker-IsSound = (subscribe-IsSound (codes "ann") new_broker new_broker-IsSound).0

abbrev pub site_with : Schema → World Site
site_with schema = record {
  env = record {
    db = record {
      strategies = strategy ∷ [];
      alerts = [];
      users = ann ∷ [];
      api_keys = [];
      clock = 5;
      faults = [];
      schema = schema;
    };
    broker = some broker;
  };
  counters = world.counters;
}

abbrev pub meant : World Site
meant = site_with (record { tables = (codes "alerts", inserted_columns) ∷ []; indexes = [] })

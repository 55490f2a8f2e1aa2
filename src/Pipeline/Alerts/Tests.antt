-- ===== src/Pipeline/Alerts/Tests.antt =====
-- An event that matches the strategy of a user with one session.
use signalstream.Pipeline.Alerts.Toy.{answers}
use signalstream.Common.{◌≡◌, ◌↔◌, refl, ok, List, In}
use signalstream.Database.{Strategy}
use signalstream.Database.Schema.{has_column, has_columns, columns_of, names}
use signalstream.Common.{text_eq}
use signalstream.Database.Postgres.Toy.{toy-new_ids}
use signalstream.Database.Strategies.Active.{IsActiveOf}
use signalstream.Database.Strategies.{get_all_active_strategies}
use signalstream.Database.Consistent.{Distinct}
use signalstream.Notification.Delivery.Toy.{delivering, broker, broker-IsSound, meant}
use signalstream.Alerter.Service.{check_event_against_strategies}
use signalstream.Pipeline.Alerts.{main_service}
use signalstream.Pipeline.Alerts.Adds.{IsReady, Adds}
use signalstream.Pipeline.Alerts.Stored.{alerted, check_event-stores}
use signalstream.Samples.{event}

ready : IsReady meant
unfolding has_column has_columns columns_of names text_eq
ready = record {
  quiet = refl;
  columns = refl;
  broker = broker;
  there = refl;
  sound = broker-IsSound;
}

check_event-stores_example :
    (given : List Strategy) × (get_all_active_strategies meant.env.db ≡ (ok given, meant.env.db))
    × ((t : Strategy) → In t given ↔ IsActiveOf meant.env.db.users meant.env.db.strategies t)
    × Distinct (λ (t : Strategy). t.id) given
    × Adds event meant
        (check_event_against_strategies (main_service delivering answers) tt event meant)
        (alerted delivering answers toy-new_ids tt event given)
check_event-stores_example =
    check_event-stores delivering answers toy-new_ids tt event meant ready (tt, tt) (tt, tt)

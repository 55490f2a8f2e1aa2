-- ===== src/Notification/Delivery/Tests.antt =====
-- An alert for a user with one session, on the schema that the program means to have and on the one
-- that its migrations make.
use signalstream.Common.{◌≡◌, ◌++◌, refl, [], ◌∷◌, none, some, ok, plain, codes, text_eq}
use signalstream.Platform.{World}
use signalstream.Database.Schema.{
  Schema, migrate, run_entries, exec, run_statement, columns_of, names, has_column, has_columns,
}
use signalstream.Database.Schema.Embedded.{embedded}
use signalstream.Database.Statements.{select_rows}
use signalstream.Database.Postgres.Toy as Postgres
use signalstream.Database.Alerts.{refused_alert, new_alert}
use signalstream.Sse.{Broker}
use signalstream.Sse.Invariant.{IsSound, Delivered}
use signalstream.Notification.{alert_row}
use signalstream.Notification.Delivery.Toy.{
  delivering, alert, broker, broker-IsSound, site_with, meant,
}
use signalstream.Notification.Delivery.{Site, main_notifier}
use signalstream.Notification.Delivery.Reached.{main_notifier-reaches}
use signalstream.Notification.Delivery.Schema.{main_notifier-migrated}
use signalstream.Alerter.Service.{alert_data}

main_notifier-reaches_example :
    let row = new_alert Postgres.toy (alert_row (λ x. x) alert) meant.env.db in
    (b' : Broker) × (main_notifier delivering alert meant ≡ (
      none,
      record meant {
        env = record {
          db = record (meant.env.db) { alerts = meant.env.db.alerts ++ row ∷ [] };
          broker = some b';
        };
      },
    ))
    × IsSound b'
    × Delivered (codes "ann") broker b' (ok row.title)
unfolding refused_alert select_rows has_columns has_column columns_of names text_eq alert_row
    alert_data
main_notifier-reaches_example =
    main_notifier-reaches delivering alert meant broker refl refl refl refl broker-IsSound

abbrev empty_schema : Schema
empty_schema = record { tables = []; indexes = [] }

abbrev set_up : World Site
set_up = site_with (migrate (λ st. plain []) (ok embedded) empty_schema).1

main_notifier-migrated_example :
    main_notifier delivering alert set_up ≡ (some Postgres.toy.undefined_column, set_up)
unfolding migrate run_entries exec run_statement columns_of names has_column text_eq
main_notifier-migrated_example =
    main_notifier-migrated delivering (λ st. plain []) empty_schema alert set_up refl refl refl

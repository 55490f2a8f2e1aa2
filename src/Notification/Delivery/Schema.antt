-- ===== src/Notification/Delivery/Schema.antt =====
-- cmd/signalstream/main.go with internal/database/migrations: an alert on the database that the program
-- has set up.
use signalstream.Common.{◌≡◌, [], none, some, ok, err, Err, codes}
use signalstream.Platform.{World}
use signalstream.Database.Schema.{Schema, Statement, columns_of, migrate}
use signalstream.Database.Schema.Embedded.{embedded}
use signalstream.Database.Alerts.Columns.{migrated-undefined_column}
use signalstream.Common.Int.{pos}
use signalstream.Notification.{AlertData, alert_row}
use signalstream.Notification.Delivery.Reached.{db_notifier-answered}
use signalstream.Notification.Delivery.{Site, Delivering, main_notifier}

-- On a database that the migrations of the program have set up, where there was no table of alerts
-- before, no alert is stored or reaches a session as long as the driver fails no statement: the notifier
-- answers with an undefined column, and nothing changes.
pub main_notifier-migrated :
    (d : Delivering) (sql_error : Statement → Err) (s : Schema) (data_sent : AlertData)
    (w : World Site)
    → columns_of (codes "alerts") s.tables ≡ none
    → migrate sql_error (ok embedded) s ≡ (none, w.env.db.schema)
    → w.env.db.faults ≡ []
    → main_notifier d data_sent w ≡ (some d.pg.undefined_column, w)
main_notifier-migrated d sql_error s data_sent w missing migrated quiet =
    let alert = alert_row d.widen data_sent in
    let (refused, _) =
      migrated-undefined_column sql_error d.pg s w.env.db alert 0 (pos 0) (pos 0) missing migrated
        quiet in
    db_notifier-answered d data_sent w (err d.pg.undefined_column, w.env.db) refused

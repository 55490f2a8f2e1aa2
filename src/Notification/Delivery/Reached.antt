-- ===== src/Notification/Delivery/Reached.antt =====
-- cmd/signalstream/main.go: an alert on its way to the table and to the sessions of the user.
use signalstream.Common.{
  ◌≡◌, refl, ◌∙◌, ap, Failure, false, true, [], ◌∷◌, ◌++◌, none, some, Result, ok, err, Text, codes,
  arith,
}
use signalstream.Platform.{World}
use signalstream.Database.{Alert}
use signalstream.Database.Schema.{has_columns}
use signalstream.Database.Statements.{Db}
use signalstream.Database.Statements.Faults.{next_fault-quiet}
use signalstream.Database.Alerts.{inserted_columns, refused_alert, new_alert, create_alert}
use signalstream.Sse.{Broker, broadcast}
use signalstream.Sse.Invariant.{IsSound, Delivered, broadcast-Delivered}
use signalstream.Notification.{
  AlertData, alert_row, keep_first, log_send, database_send, send_from, multi_send,
}
use signalstream.Notification.Delivery.{
  Site, Delivering, store, publish, db_notifier, main_notifier,
}

-- The log never fails, so that the answer is that of the database notifier.
pub main_notifier-eq :
    (d : Delivering) (data_sent : AlertData) (w : World Site)
    → main_notifier d data_sent w ≡ db_notifier d data_sent w
unfolding main_notifier multi_send send_from keep_first log_send
main_notifier-eq d data_sent w = refl

-- What the database notifier makes of the answer of `CreateAlert`.
abbrev answered : Delivering → AlertData → World Site → Result Alert × Db → Failure × World Site
answered d data_sent w r =
    let w' : World Site = record w { env = record (w.env) { db = r.1 } } in
    elim r.0 [
      | err e ↦ (some e, w')
      | ok row ↦ (none, publish d (d.uuid_string data_sent.user_id) row w')
    ]

pub db_notifier-answered :
    (d : Delivering) (data_sent : AlertData) (w : World Site) (r : Result Alert × Db)
    → create_alert d.pg (alert_row d.widen data_sent) w.env.db ≡ r
    → main_notifier d data_sent w ≡ answered d data_sent w r
unfolding db_notifier database_send store
db_notifier-answered d data_sent w r e =
    main_notifier-eq d data_sent w ∙ ap (answered d data_sent w) e

publish-some :
    (d : Delivering) (user : Text) (row : Alert) (w : World Site) (b b' : Broker)
    → w.env.broker ≡ some b
    → broadcast d.marshal user row b ≡ some b'
    → publish d user row w ≡ record w { env = record (w.env) { broker = some b' } }
unfolding publish
publish-some d user row w b b' there sent =
    rw there (ap (λ o. record w { env = record (w.env) { broker = o } }) sent)

create_alert-stores :
    (d : Delivering) (alert : Alert) (db : Db)
    → db.faults ≡ []
    → has_columns (codes "alerts") inserted_columns db.schema ≡ true
    → refused_alert (d.pg.new_uuid db) alert db ≡ false
    → create_alert d.pg alert db ≡ (
      ok (new_alert d.pg alert db),
      record db { alerts = db.alerts ++ new_alert d.pg alert db ∷ [] },
    )
unfolding create_alert
create_alert-stores d alert db quiet columns fits = ground (arith, next_fault-quiet db quiet)

-- Where the table of alerts has the columns that are named, the database fails no statement and refuses
-- no row for the alert, and the broker is sound, an alert is stored as one new row and reaches every
-- session of its user that has room, and no other one; the notifier then answers without an error.
pub main_notifier-reaches :
    (d : Delivering) (data_sent : AlertData) (w : World Site) (b : Broker)
    → w.env.db.faults ≡ []
    → has_columns (codes "alerts") inserted_columns w.env.db.schema ≡ true
    → refused_alert (d.pg.new_uuid w.env.db) (alert_row d.widen data_sent) w.env.db ≡ false
    → w.env.broker ≡ some b
    → IsSound b
    → let row = new_alert d.pg (alert_row d.widen data_sent) w.env.db in
      (b' : Broker) × (main_notifier d data_sent w ≡ (
        none,
        record w {
          env = record {
            db = record (w.env.db) { alerts = w.env.db.alerts ++ row ∷ [] };
            broker = some b';
          };
        },
      ))
      × IsSound b'
      × Delivered (d.uuid_string data_sent.user_id) b b' (d.marshal row)
main_notifier-reaches d data_sent w b quiet columns fits there sound =
    let alert = alert_row d.widen data_sent in
    let row = new_alert d.pg alert w.env.db in
    let stored = create_alert-stores d alert w.env.db quiet columns fits in
    let (b', sent, sound', reached) =
      broadcast-Delivered d.marshal (d.uuid_string data_sent.user_id) row b sound in
    let db' : Db = record (w.env.db) { alerts = w.env.db.alerts ++ row ∷ [] } in
    let w' : World Site = record w { env = record (w.env) { db = db' } } in
    let published = publish-some d (d.uuid_string data_sent.user_id) row w' b b' there sent in
    (
      b',
      db_notifier-answered d data_sent w (ok row, db') stored ∙ ap (λ v. (none, v)) published,
      sound',
      reached,
    )

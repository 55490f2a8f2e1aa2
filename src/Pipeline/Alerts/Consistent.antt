-- ===== src/Pipeline/Alerts/Consistent.antt =====
-- cmd/signalstream/main.go: requests and checked events, one after the other, keep the promises of the
-- tables' keys.
use signalstream.Common.{
  All-of_In, ◌≡◌, refl, sym, ◌∙◌, ap, subst, inl, inr, List, [], ◌∷◌, In, All, Option-cases,
  Result-cases, arith,
}
use signalstream.Platform.{NormalizedEvent, World}
use signalstream.Database.{Strategy, Alert, Float32}
use signalstream.Database.Postgres.{Postgres}
use signalstream.Database.Statements.{Db, next_fault}
use signalstream.Database.Alerts.{create_alert}
use signalstream.Database.Strategies.{join_users, get_all_active_strategies}
use signalstream.Database.Strategies.Active.{IsActiveOf, join_users_iff}
use signalstream.Database.Consistent.{IsConsistent}
use signalstream.Database.Consistent.Lookups.{next_fault-IsConsistent}
use signalstream.Database.Consistent.Rows.{Distinct-eq}
use signalstream.Database.Consistent.Alerts.{create_alert-IsConsistent}
use signalstream.Notification.{alert_row}
use signalstream.Notification.Delivery.{Site, Delivering, publish}
use signalstream.Notification.Delivery.Reached.{db_notifier-answered}
use signalstream.Alerter.Service.{
  alert_data, notify, evaluate_strategy, evaluate_all, check_event_against_strategies,
}
use signalstream.Pipeline.Alerts.{Answers, main_service}
use signalstream.Pipeline.Alerts.Outcome.{
  Outcome, silent, alerting, evaluate_strategy-Outcome, with_db, check_event-given,
  check_event-unanswered,
}

-- A strategy of the table with the id has the same user.
abbrev Owns : List Strategy → Strategy → Type 0
Owns rows t = (s : Strategy) → In s rows → s.id ≡ t.id → s.user_id ≡ t.user_id

-- An active strategy is one of the table with the email of its user.
Owns-active :
    (db : Db) (t : Strategy)
    → IsConsistent db
    → IsActiveOf db.users db.strategies t
    → Owns db.strategies t
Owns-active db t c (row, user, there, _, _, e) s m same =
    let ids : s.id ≡ row.id = same ∙ ap (λ (x : Strategy). x.id) e in
    let one = Distinct-eq (λ s. s.id) db.strategies s row c.strategy_ids m there ids in
    ap (λ (x : Strategy). x.user_id) one ∙ sym (ap (λ (x : Strategy). x.user_id) e)

create_alert-strategies :
    (pg : Postgres) (alert : Alert) (db : Db)
    → (create_alert pg alert db).1.strategies ≡ db.strategies
unfolding create_alert next_fault
create_alert-strategies pg alert db = ground arith

module _ {C : Type 0} (d : Delivering) (a : Answers C) (ctx : C) (event : NormalizedEvent) where
  publish-db : (user : _) (row : Alert) (w : World Site) → (publish d user row w).env.db ≡ w.env.db
  unfolding publish
  publish-db user row w = elim (Option-cases w.env.broker) [
    | inl gone ↦ rw gone refl
    | inr (b, there) ↦ rw there refl
  ]

  -- The row that `notify` has inserted.
  abbrev sent_row : Strategy → Float32 → Alert
  sent_row s score = alert_row d.widen (alert_data a.ops event s score)

  notify-db :
      (s : Strategy) (score : Float32) (w : World Site)
      → (notify (main_service d a) ctx event s score w).env.db
        ≡ (create_alert d.pg (sent_row s score) w.env.db).1
  unfolding notify main_service
  notify-db s score w =
      let created = create_alert d.pg (sent_row s score) w.env.db in
      let sent = db_notifier-answered d (alert_data a.ops event s score) w created refl in
      let user = d.uuid_string (alert_data a.ops event s score).user_id in
      elim (Result-cases created.0) [
        | inr (e, bad) ↦ ground arith
        | inl (row, fine) ↦ ground (arith, publish-db user row (with_db d a ctx event w created.1))
      ]

  -- The database is consistent, and a strategy of the list has the user of the row with its id.
  record Going (given : List Strategy) (w : World Site) : Type 0 where
    consistent : IsConsistent w.env.db
    own : All (Owns w.env.db.strategies) given

  notify-IsConsistent :
      (s : Strategy) (score : Float32) (w : World Site)
      → IsConsistent w.env.db
      → Owns w.env.db.strategies s
      → IsConsistent (notify (main_service d a) ctx event s score w).env.db
  unfolding alert_row alert_data
  notify-IsConsistent s score w c own =
      rw (notify-db s score w)
        (create_alert-IsConsistent d.pg (sent_row s score) w.env.db (λ t m e. own t m e) c)

  evaluate_strategy-Going :
      (s : Strategy) (rest : List Strategy) (w : World Site)
      → Going (s ∷ rest) w
      → Going rest (evaluate_strategy (main_service d a) ctx event s w)
  evaluate_strategy-Going s rest w g = go (evaluate_strategy-Outcome d a ctx event s w)
    where
      w' : World Site
      w' = evaluate_strategy (main_service d a) ctx event s w

      go : Outcome d a ctx event s w w' → Going rest w'
      go (silent e same) =
          subst (λ (x : Site). Going rest (record w' { env = x })) (sym same)
            (record { consistent = g.consistent; own = g.own.1 })
      go (alerting score e same) =
          let strategies =
            ap (λ (db : Db). db.strategies) (notify-db s score w)
            ∙ create_alert-strategies d.pg (sent_row s score) w.env.db in
          subst (Going rest) (sym same) (record {
            consistent = notify-IsConsistent s score w g.consistent g.own.0;
            own = subst (λ rows. All (Owns rows) rest) (sym strategies) g.own.1;
          })

  evaluate_all-IsConsistent :
      (given : List Strategy) (w : World Site)
      → Going given w
      → IsConsistent (evaluate_all (main_service d a) ctx event given w).env.db
  unfolding evaluate_all
  evaluate_all-IsConsistent [] w g = g.consistent
  evaluate_all-IsConsistent (s ∷ rest) w g =
      evaluate_all-IsConsistent rest (evaluate_strategy (main_service d a) ctx event s w)
        (evaluate_strategy-Going s rest w g)

  pub check_event-IsConsistent :
      (w : World Site)
      → IsConsistent w.env.db
      → IsConsistent (check_event_against_strategies (main_service d a) ctx event w).env.db
  unfolding get_all_active_strategies
  check_event-IsConsistent w c =
      let (fault, db) = next_fault w.env.db in
      let kept = next_fault-IsConsistent w.env.db c in
      elim (Option-cases fault) [
        | inr (e, bad) ↦ rw (check_event-unanswered d a ctx event w db e (ground arith)) kept
        | inl fine ↦
            let given = join_users db.users db.strategies in
            let members = join_users_iff db.users db.strategies in
            rw (check_event-given d a ctx event w db given (ground arith)) (
              evaluate_all-IsConsistent given (with_db d a ctx event w db) (record {
                consistent = kept;
                own =
                    All-of_In (Owns db.strategies) given
                      (λ t m. Owns-active db t kept ((members t).0 m));
              }))
      ]

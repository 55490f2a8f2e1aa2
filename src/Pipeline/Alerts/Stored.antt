-- ===== src/Pipeline/Alerts/Stored.antt =====
-- cmd/signalstream/main.go: the rows that the check of an event leaves in the table of alerts.
use signalstream.Common.{
  ◌≡◌, ◌↔◌, Failure, refl, sym, ap, subst, false, List, [], ◌∷◌, ◌++◌, Option, none, some, ok, In,
  arith,
}
use signalstream.Platform.{NormalizedEvent, World, count_error, count_alert}
use signalstream.Database.{User, Strategy, Float32}
use signalstream.Database.Alerts.{refused_alert, new_alert}
use signalstream.Database.Strategies.Active.{IsActiveOf}
use signalstream.Database.Strategies.{get_all_active_strategies}
use signalstream.Database.Strategies.Once.{get_all_active_once}
use signalstream.Database.Consistent.{Distinct}
use signalstream.Notification.{alert_row}
use signalstream.Notification.Delivery.{Site, Delivering}
use signalstream.Notification.Delivery.Reached.{main_notifier-reaches}
use signalstream.Alerter.Service.{
  alert_data, notify, evaluate_strategy, evaluate_all, check_event_against_strategies,
}
use signalstream.Pipeline.Alerts.Outcome.{
  Outcome, silent, alerting, evaluate_strategy-Outcome, check_event-given,
}
use signalstream.Pipeline.Alerts.Adds.{
  NewIds, IsReady, Adds, Referred, AllReferred, AllReferred-same, AllReferred-active, Adds-same,
  Adds-trans,
}
use signalstream.Pipeline.Alerts.{Answers, main_service, score_of}

-- A strategy, if it has a score.
abbrev pub if_scored : Strategy → Option Float32 → List Strategy
if_scored s none = []
if_scored s (some _) = s ∷ []

module _ {C : Type 0} (d : Delivering) (a : Answers C) (new_ids : NewIds d.pg) (ctx : C)
    (event : NormalizedEvent) where
  notify-Adds :
      (s : Strategy) (score : Float32) (w : World Site)
      → IsReady w
      → Referred w.env.db s
      → Adds event w (notify (main_service d a) ctx event s score w) (s ∷ [])
  unfolding main_service notify
  notify-Adds s score w h (has_user, has_strategy) =
      let sent = alert_data a.ops event s score in
      let fits : refused_alert (d.pg.new_uuid w.env.db) (alert_row d.widen sent) w.env.db ≡ false =
        unfold alert_row alert_data refused_alert in ground (arith, new_ids w.env.db) in
      let (b', e, sound, reached) =
        main_notifier-reaches d sent w h.broker h.quiet h.columns fits h.there h.sound in
      let row = new_alert d.pg (alert_row d.widen sent) w.env.db in
      let after : World Site = record w {
        env = record {
          db = record (w.env.db) { alerts = w.env.db.alerts ++ row ∷ [] };
          broker = some b';
        };
      } in
      let same : notify (main_service d a) ctx event s score w ≡ count_alert after =
        ap
          (λ (r : Failure × World Site). elim r.0 [
            | some failed ↦ count_error r.1
            | none ↦ count_alert r.1
          ])
          e in
      rw same (record {
        ready = record {
          quiet = h.quiet;
          columns = h.columns;
          broker = b';
          there = refl;
          sound = sound;
        };
        users = refl;
        strategies = refl;
        rows = row ∷ [];
        added = refl;
        for_them = unfold new_alert alert_row alert_data in (refl, refl, refl, tt);
      })

  -- The strategies that are alerted of the event.
  abbrev pub alerted : List Strategy → List Strategy
  alerted [] = []
  alerted (s ∷ rest) = if_scored s (score_of d a ctx event s) ++ alerted rest

  evaluate_strategy-Adds :
      (s : Strategy) (w : World Site)
      → IsReady w
      → Referred w.env.db s
      → Adds event w
          (evaluate_strategy (main_service d a) ctx event s w)
          (if_scored s (score_of d a ctx event s))
  evaluate_strategy-Adds s w h r = go (evaluate_strategy-Outcome d a ctx event s w)
    where
      w' : World Site
      w' = evaluate_strategy (main_service d a) ctx event s w

      go : Outcome d a ctx event s w w' → Adds event w w' (if_scored s (score_of d a ctx event s))
      go (silent e same) =
          subst (λ o. Adds event w w' (if_scored s o)) (sym e) (Adds-same event w w' h same)
      go (alerting score e same) =
          subst (λ o. Adds event w w' (if_scored s o)) (sym e)
            (subst (λ x. Adds event w x (s ∷ [])) (sym same) (notify-Adds s score w h r))

  evaluate_all-Adds :
      (ss : List Strategy) (w : World Site)
      → IsReady w
      → AllReferred w.env.db ss
      → Adds event w (evaluate_all (main_service d a) ctx event ss w) (alerted ss)
  unfolding evaluate_all
  evaluate_all-Adds [] w h r = Adds-same event w w h refl
  evaluate_all-Adds (s ∷ rest) w h r =
      let w' = evaluate_strategy (main_service d a) ctx event s w in
      let one = evaluate_strategy-Adds s w h r.0 in
      let more =
        evaluate_all-Adds rest w' one.ready
          (AllReferred-same w.env.db w'.env.db rest one.users one.strategies r.1) in
      Adds-trans event w w' (evaluate_all (main_service d a) ctx event rest w')
        (if_scored s (score_of d a ctx event s)) (alerted rest) one more

  -- The check of an event by the alerter of `main` adds one row to the table of alerts for each active
  -- strategy of an existing user for which the search finds the event, with the user, the strategy and the
  -- event, in the order of the one list of strategies that the database returns, which holds each of these
  -- strategies once, and no other row; none is refused by a foreign key, and the broker stays sound. The
  -- conditions: no two users and no two strategies have the same identifier, the table has the columns
  -- that are named, no statement fails, the broker is sound, the database makes new identifiers, and the
  -- embedding and the search answer by their arguments only.
  pub check_event-stores :
      (w : World Site)
      → IsReady w
      → Distinct (λ (u : User). u.id) w.env.db.users
      → Distinct (λ (t : Strategy). t.id) w.env.db.strategies
      → (given : List Strategy) × (get_all_active_strategies w.env.db ≡ (ok given, w.env.db))
        × ((t : Strategy) → In t given ↔ IsActiveOf w.env.db.users w.env.db.strategies t)
        × Distinct (λ (t : Strategy). t.id) given
        × Adds event w
            (check_event_against_strategies (main_service d a) ctx event w)
            (alerted given)
  check_event-stores w h distinct distinct' =
      let (given, answer, members, once) =
        get_all_active_once w.env.db h.quiet distinct distinct' in
      let referred = AllReferred-active w.env.db given (λ t m. (members t).0 m) in
      let same = check_event-given d a ctx event w w.env.db given answer in
      (
        given,
        answer,
        members,
        once,
        subst (λ x. Adds event w x (alerted given)) (sym same)
            (evaluate_all-Adds given w h referred),
      )

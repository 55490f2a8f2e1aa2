-- ===== src/Pipeline/Alerts/Outcome.antt =====
-- internal/alerter/service.go: what the evaluation of one strategy comes to, and the check of an event
-- for the strategies that the database gives.
use signalstream.Common.{
  ◌≡◌, Failure, Err, ap, List, [], none, some, Result, ok, err, inl, inr, Bool-cases, Option-cases,
  arith,
}
use signalstream.Platform.{NormalizedEvent, World, count_error}
use signalstream.Database.{Strategy, Float32}
use signalstream.Database.Statements.{Db}
use signalstream.Database.Strategies.{get_all_active_strategies}
use signalstream.Notification.Delivery.{Site, Delivering}
use signalstream.Alerter.Match.{matches_simple_filters, find_event_match}
use signalstream.Alerter.Service.{
  result_limit, notify, evaluate_strategy, evaluate_all, check_event_against_strategies,
}
use signalstream.Pipeline.Alerts.{Answers, main_store, main_service, score_of}

module _ {C : Type 0} (d : Delivering) (a : Answers C) (ctx : C) (event : NormalizedEvent) where
  -- The evaluation of a strategy is its notification, if it has a score.
  pub data Outcome (s : Strategy) (w w' : World Site) : Type 0 where
    silent : score_of d a ctx event s ≡ none → w'.env ≡ w.env → Outcome s w w'
    alerting :
        (score : Float32)
        → score_of d a ctx event s ≡ some score
        → w' ≡ notify (main_service d a) ctx event s score w
        → Outcome s w w'

  pub evaluate_strategy-Outcome :
      (s : Strategy) (w : World Site)
      → Outcome s w (evaluate_strategy (main_service d a) ctx event s w)
  unfolding main_service evaluate_strategy score_of
  evaluate_strategy-Outcome s w = elim (Bool-cases (matches_simple_filters event s)) [
    | inr no_match ↦ silent (ground arith) (ground arith)
    | inl passes ↦
        let q = a.embed ctx s.query in
        elim (Option-cases q.1) [
          | inr (e, failed) ↦ silent (ground arith) (ground arith)
          | inl fine ↦
              let found = a.search ctx q.0 s.source s.tickers result_limit in
              elim (Option-cases found.1) [
                | inr (e, failed) ↦ silent (ground arith) (ground arith)
                | inl fine' ↦
                    let answer =
                      find_event_match a.ops (a.event_uuid event.id) found.0
                        s.similarity_threshold in
                    elim (Bool-cases answer.1) [
                      | inr unmatched ↦ silent (ground arith) (ground arith)
                      | inl matched ↦ alerting answer.0 (ground arith) (ground arith)
                    ]
              ]
        ]
  ]

  -- The world with another database.
  abbrev pub with_db : World Site → Db → World Site
  with_db w db = record w { env = record (w.env) { db = db } }

  main_store-given :
      (w : World Site) (db : Db) (given : List Strategy)
      → get_all_active_strategies w.env.db ≡ (ok given, db)
      → main_store ctx w ≡ ((given, none), with_db w db)
  unfolding main_store
  main_store-given w db given e =
      ap
        (λ (r : Result (List Strategy) × Db).
          let answer : (List Strategy × Failure) × World Site = elim r.0 [
            | err f ↦ (([], some f), with_db w r.1)
            | ok ss ↦ ((ss, none), with_db w r.1)
          ] in
          answer)
        e

  pub check_event-given :
      (w : World Site) (db : Db) (given : List Strategy)
      → get_all_active_strategies w.env.db ≡ (ok given, db)
      → check_event_against_strategies (main_service d a) ctx event w
        ≡ evaluate_all (main_service d a) ctx event given (with_db w db)
  unfolding check_event_against_strategies main_service
  check_event-given w db given e =
      ap
        (λ (r : (List Strategy × Failure) × World Site).
          let after : World Site = elim r.0.1 [
            | some f ↦ count_error r.1
            | none ↦ evaluate_all (main_service d a) ctx event r.0.0 r.1
          ] in
          after)
        (main_store-given w db given e)

  pub check_event-unanswered :
      (w : World Site) (db : Db) (f : Err)
      → get_all_active_strategies w.env.db ≡ (err f, db)
      → (check_event_against_strategies (main_service d a) ctx event w).env.db ≡ db
  unfolding check_event_against_strategies main_service main_store
  check_event-unanswered w db f e = ground arith

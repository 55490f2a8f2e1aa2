-- ===== src/Pipeline/Alerts.antt =====
-- cmd/signalstream/main.go with internal/alerter: the alerter that `main` builds, over the database and
-- the broker. The embedding and the search are parameters, whose answers depend on the question only.
pub mod Outcome
pub mod Adds
pub mod Stored
pub mod Consistent
pub mod Toy
mod Tests
use signalstream.Common.{ℕ, Bool, true, false, List, [], Option, none, some, Failure, Text, ok, err}
use signalstream.Database.{Strategy, Float32}
use signalstream.Database.Strategies.{get_all_active_strategies}
use signalstream.Platform.{NormalizedEvent, World}
use signalstream.Embedding.{Vector}
use signalstream.Notification.Delivery.{Site, Delivering, main_notifier}
use signalstream.Alerter.Match.{FloatOps, ScoredResult, matches_simple_filters, find_event_match}
use signalstream.Alerter.Service.{Service, StrategyStore, result_limit}

pub record Answers (C : Type 0) : Type 0 where
  pub embed : C → Text → Vector × Failure
  pub search : C → Vector → List Text → List Text → ℕ → List ScoredResult × Failure
  pub event_uuid : Text → Text
  pub ops : FloatOps

-- `GetAllActiveStrategies` as the store of the alerter.
unfoldable pub main_store : {C : Type 0} → StrategyStore C Site
main_store ctx w =
    let (reply, db') = get_all_active_strategies w.env.db in
    let w' : World Site = record w { env = record (w.env) { db = db' } } in
    elim reply [ err e ↦ (([], some e), w') | ok strategies ↦ ((strategies, none), w') ]

module _ {C : Type 0} (d : Delivering) (a : Answers C) where
  -- `alerterSvc`
  unfoldable pub main_service : Service C Site
  main_service = record {
    embedder = λ ctx text w. (a.embed ctx text, w);
    searcher = λ ctx v sources tickers limit w. (a.search ctx v sources tickers limit, w);
    notifier = main_notifier d;
    strategies = main_store;
    event_uuid = a.event_uuid;
    ops = a.ops;
  }

  -- The score with which a strategy is alerted of an event, if it is.
  unfoldable pub score_of : C → NormalizedEvent → Strategy → Option Float32
  score_of ctx event strategy = elim (matches_simple_filters event strategy) [
    | false ↦ none
    | true ↦
        let (query_vector, failure) = a.embed ctx strategy.query in
        elim failure [
          | some e ↦ none
          | none ↦
              let (results, failure') =
                a.search ctx query_vector strategy.source strategy.tickers result_limit in
              elim failure' [
                | some e ↦ none
                | none ↦
                    let (score, matched) =
                      find_event_match a.ops (a.event_uuid event.id) results
                        strategy.similarity_threshold in
                    elim matched [ false ↦ none | true ↦ some score ]
              ]
        ]
  ]

-- ===== src/Alerter/Tests.antt =====
-- The alerter at a strategy with two sources and a ticker.
use signalstream.Common.{
  ℕ, ◌+◌, ◌≤◌, ◌≡◌, ◌≢◌, ◌↔◌, refl, Bool, true, false, ◌&&◌, ◌||◌, [], ◌∷◌, none, codes, text_eq,
  length, arith, List, In, inl, inr, ap, subst, Result, ok,
}
use signalstream.Database.{Strategy}
use signalstream.Metrics.{add_times, add_one}
use signalstream.Alerter.Match.{matches_simple_filters, find_event_match, found_in, shares_ticker}
use signalstream.Alerter.Match.Laws.{Passes, matches_simple_filters_iff}
use signalstream.Alerter.Qdrant.{
  Filter, filter, Condition, keyword, nested, Conditions, nil, cons, Payload, build_qdrant_filter,
  point_payload,
}
use signalstream.Alerter.Qdrant.Agreement.{
  FilterSemantics, every, some_of, has_keyword, lookup_value, build_qdrant_filter-agrees,
}
use signalstream.Alerter.Service.{evaluate_strategy, notify, check_event_against_strategies}
use signalstream.Alerter.Service.Verdict.{Evaluates, evaluate_strategy-Evaluates}
use signalstream.Alerter.Service.Counts.{Counted, ServicesKeep, check_event-counts}
use signalstream.Platform.{Action}
use signalstream.Embedding.{Vector}
use signalstream.Retry.{default_config, do_retry, attempts, rounds}
use signalstream.Alerter.Searcher.{ScoredPoint, try_query, query_similar}
use signalstream.Alerter.Searcher.Nearest.{Point, SearchLaw, AlertedOrCrowded, alerted_or_crowded}
use signalstream.Samples.{event, strategy, alerting, world, halves, calm}

passes : matches_simple_filters event strategy ≡ true
unfolding matches_simple_filters found_in shares_ticker text_eq
passes = refl

alerted : (evaluate_strategy alerting tt event strategy world).counters.alerts_triggered ≡ 1
unfolding evaluate_strategy matches_simple_filters found_in shares_ticker text_eq find_event_match
    notify add_one
alerted = refl

matches_simple_filters_iff_example :
    (matches_simple_filters event strategy ≡ true) ↔ Passes event strategy
matches_simple_filters_iff_example = matches_simple_filters_iff event strategy

-- Qdrant's evaluation of filters, as a program.
unfoldable mutual
  eval_filter : Filter → Payload → Bool
  eval_filter (filter must should) p = eval_every must p && eval_should should p

  eval_condition : Condition → Payload → Bool
  eval_condition (keyword key value) p = has_keyword (lookup_value key p) value
  eval_condition (nested f) p = eval_filter f p

  eval_every : Conditions → Payload → Bool
  eval_every nil p = true
  eval_every (cons c cs) p = eval_condition c p && eval_every cs p

  eval_should : Conditions → Payload → Bool
  eval_should nil p = true
  eval_should (cons c cs) p = eval_condition c p || eval_some cs p

  eval_some : Conditions → Payload → Bool
  eval_some nil p = false
  eval_some (cons c cs) p = eval_condition c p || eval_some cs p

eval_every-eq :
    (cs : Conditions) (p : Payload) → eval_every cs p ≡ every (λ c. eval_condition c p) cs
unfolding eval_every
eval_every-eq nil p = refl
eval_every-eq (cons c cs) p = ground (arith, eval_every-eq cs p)

eval_some-eq :
    (cs : Conditions) (p : Payload) → eval_some cs p ≡ some_of (λ c. eval_condition c p) cs
unfolding eval_some
eval_some-eq nil p = refl
eval_some-eq (cons c cs) p = ground (arith, eval_some-eq cs p)

eval_must :
    (must : Conditions) (p : Payload)
    → eval_filter (filter must nil) p ≡ every (λ c. eval_condition c p) must
unfolding eval_filter eval_should
eval_must must p = ground (arith, eval_every-eq must p)

eval_nested :
    (c : Condition) (cs : Conditions) (p : Payload)
    → eval_filter (filter nil (cons c cs)) p ≡ some_of (λ d. eval_condition d p) (cons c cs)
unfolding eval_filter eval_should eval_every
eval_nested c cs p = ground (arith, eval_some-eq cs p)

semantics : FilterSemantics
unfolding eval_condition
semantics = record {
  accepts = eval_filter;
  holds = λ p c. eval_condition c p;
  accepts_must = eval_must;
  accepts_should = eval_nested;
  holds_keyword = λ key value p. refl;
  holds_nested = λ f p. refl;
}

build_qdrant_filter-agrees_example :
    semantics.accepts
      (build_qdrant_filter strategy.source strategy.tickers)
      (point_payload (λ t. []) event)
    ≡ matches_simple_filters event strategy
build_qdrant_filter-agrees_example = build_qdrant_filter-agrees (λ t. []) event semantics strategy

evaluate_strategy-Evaluates_example :
    Evaluates alerting tt event strategy world (evaluate_strategy alerting tt event strategy world)
evaluate_strategy-Evaluates_example = evaluate_strategy-Evaluates alerting tt event strategy world

services_keep : ServicesKeep alerting
unfolding add_times
services_keep = record {
  embedder_keeps = λ ctx q w. record { by_alerts = refl; by_errors = refl };
  searcher_keeps = λ ctx v ss ts l w. record { by_alerts = refl; by_errors = refl };
  notifier_keeps = λ a w. record { by_alerts = refl; by_errors = refl };
  store_keeps = λ ctx w. record { by_alerts = refl; by_errors = refl };
}

check_event-counts_example :
    let ((strategies, failure), w₁) = alerting.strategies tt world in
    let w' = check_event_against_strategies alerting tt event world in
    ((failure ≡ none) → (a : ℕ) × (e : ℕ) × (a + e ≤ length strategies) × Counted a e world w')
    × ((failure ≢ none) → Counted 0 1 world w')
check_event-counts_example = check_event-counts alerting services_keep tt event world

abbrev other_source : Strategy
other_source = record strategy { source = codes "Polygon.io" ∷ [] }

other_source_fails : ¬ Passes event other_source
unfolding matches_simple_filters found_in shares_ticker text_eq
other_source_fails p = ground (arith, (matches_simple_filters_iff event other_source).1 p)

abbrev own : Point
own = record { uuid = codes "e1"; payload = point_payload (λ t. []) event }

-- A collection with the event's point alone, which every query finds with the score 9.
abbrev query : (Unit {0}) → Vector → Filter → ℕ → Action ℕ (Result (List ScoredPoint))
query ctx v f limit w = (ok (record { uuid = codes "e1"; score = 9 } ∷ []), w)

query-law : SearchLaw semantics (λ v p. 9) (λ a b. b ≤ a) (own ∷ []) query
query-law ctx v f limit w w' resp e p m accepted = elim m [
  | inl same ↦
      let one : record { uuid = codes "e1"; score = 9 } ∷ [] ≡ resp = ground arith in
      inl (subst (In _) one (inl (ap (λ (x : Point). record { uuid = x.uuid; score = 9 }) same)))
  | inr other ↦ elim other [ ]
]

alerted_or_crowded_example :
    AlertedOrCrowded alerting query halves
      (λ ctx. calm)
      semantics
      (λ v p. 9)
      (λ a b. b ≤ a)
      (own ∷ [])
      query-law
      (λ t. [])
      tt
      event
      strategy
      (1 ∷ [])
      (record { point_id = codes "e1"; score = 9 } ∷ [])
      world
      world
unfolding query_similar try_query do_retry attempts rounds default_config
alerted_or_crowded_example =
    alerted_or_crowded alerting query halves (λ ctx. calm) semantics (λ v p. 9) (λ a b. b ≤ a)
      (own ∷ []) query-law (λ t. []) tt event strategy (1 ∷ [])
      (record { point_id = codes "e1"; score = 9 } ∷ []) world world world passes refl refl
      (inl refl) refl

-- ===== src/Alerter/Service.antt =====
-- internal/alerter/service.go: the evaluation of an event against the strategies. The services that
-- it depends on are the interfaces of the source; logging is left out.
pub mod Verdict
pub mod Counts
use signalstream.Common.{ℕ, Bool, true, false, List, [], ◌∷◌, none, some, Failure, Text}
use signalstream.Database.{Strategy, Uuid, Float32}
use signalstream.Platform.{NormalizedEvent, World, Action, count_error, count_alert}
use signalstream.Embedding.{Embedder}
use signalstream.Notification.{AlertData, Notifier}
use signalstream.Alerter.Match.{FloatOps, ScoredResult, matches_simple_filters, find_event_match}
use signalstream.Alerter.Searcher.{VectorSearcher}

-- The interface `StrategyStore`
abbrev pub StrategyStore : Type 0 → Type 0 → Type 0
StrategyStore C E = C → Action E (List Strategy × Failure)

-- `Service`, with what it takes from other packages: the name of an event's point
-- (`uuid.NewSHA1(uuid.Nil, …).String()`) and the float operations.
pub record Service (C E : Type 0) : Type 0 where
  pub embedder : Embedder C E
  pub searcher : VectorSearcher C E
  pub notifier : Notifier E
  pub strategies : StrategyStore C E
  pub event_uuid : Text → Text
  pub ops : FloatOps

-- The number of results that a search asks for.
abbrev pub result_limit : ℕ
result_limit = 10

unfoldable pub alert_data : FloatOps → NormalizedEvent → Strategy → Float32 → AlertData
alert_data ops event strategy score = record {
  user_id = strategy.user_id;
  strategy_id = strategy.id;
  strategy_description = strategy.description;
  recipient = strategy.owner_email;
  event_id = event.id;
  event_title = event.title;
  event_source = event.source;
  event_url = event.content_url;
  event_content = [];
  similarity_score = score;
  similarity_threshold = ops.narrow strategy.similarity_threshold;
}

module _ {C E : Type 0} (s : Service C E) (ctx : C) (event : NormalizedEvent) where
  -- The end of `evaluateStrategy`, once a match with this score is found.
  unfoldable pub notify : Strategy → Float32 → World E → World E
  notify strategy score w =
      let (failure, w') = s.notifier (alert_data s.ops event strategy score) w in
      elim failure [ some e ↦ count_error w' | none ↦ count_alert w' ]

  unfoldable pub evaluate_strategy : Strategy → World E → World E
  evaluate_strategy strategy w = elim (matches_simple_filters event strategy) [
    | false ↦ w
    | true ↦
        let ((query_vector, failure), w₁) = s.embedder ctx strategy.query w in
        elim failure [
          | some e ↦ count_error w₁
          | none ↦
              let ((results, failure'), w₂) =
                s.searcher ctx query_vector strategy.source strategy.tickers result_limit w₁ in
              elim failure' [
                | some e ↦ count_error w₂
                | none ↦
                    let (score, matched) =
                      find_event_match s.ops (s.event_uuid event.id) results
                        strategy.similarity_threshold in
                    elim matched [ false ↦ w₂ | true ↦ notify strategy score w₂ ]
              ]
        ]
  ]

  -- The loop over the strategies.
  unfoldable pub evaluate_all : List Strategy → World E → World E
  evaluate_all [] w = w
  evaluate_all (strategy ∷ rest) w = evaluate_all rest (evaluate_strategy strategy w)

  unfoldable pub check_event_against_strategies : World E → World E
  check_event_against_strategies w =
      let ((strategies, failure), w') = s.strategies ctx w in
      elim failure [ some e ↦ count_error w' | none ↦ evaluate_all strategies w' ]

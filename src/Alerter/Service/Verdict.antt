-- ===== src/Alerter/Service/Verdict.antt =====
-- internal/alerter/service.go: when an alert is sent, and what is counted.
use signalstream.Common.{
  ◌≡◌, inl, inr, refl, Bool, true, false, List, [], ◌∷◌, none, some, Err, All, Bool-cases,
  Option-cases, arith,
}
use signalstream.Database.{Strategy, Float32}
use signalstream.Platform.{NormalizedEvent, World, count_error, count_alert}
use signalstream.Embedding.{Vector}
use signalstream.Notification.{AlertData}
use signalstream.Alerter.Match.{ScoredResult, matches_simple_filters, find_event_match}
use signalstream.Alerter.Match.Laws.{
  Passes, matches_simple_filters_iff, FirstHit, IsHit, Answers, find_event_match-Answers,
}
use signalstream.Alerter.Service.{
  Service, result_limit, alert_data, notify, evaluate_strategy, evaluate_all,
}

module _ {C E : Type 0} (s : Service C E) (ctx : C) (event : NormalizedEvent) where
  -- What an alert for a strategy says of the event.
  abbrev pub described : Strategy → Float32 → AlertData
  described strategy score = record {
    user_id = strategy.user_id;
    strategy_id = strategy.id;
    strategy_description = strategy.description;
    recipient = strategy.owner_email;
    event_id = event.id;
    event_title = event.title;
    event_source = event.source;
    event_url = event.content_url;
    event_content = [];
    similarity_score = score;
    similarity_threshold = s.ops.narrow strategy.similarity_threshold;
  }

  -- One call of the notifier, with that alert, and the counter behind it.
  pub data Notifies (strategy : Strategy) (score : Float32) (w w' : World E) : Type 0 where
    delivered :
        (w₁ : World E)
        → s.notifier (described strategy score) w ≡ (none, w₁)
        → w' ≡ count_alert w₁
        → Notifies strategy score w w'
    undelivered :
        (e : Err) (w₁ : World E)
        → s.notifier (described strategy score) w ≡ (some e, w₁)
        → w' ≡ count_error w₁
        → Notifies strategy score w w'

  pub notify-Notifies :
      (strategy : Strategy) (score : Float32) (w : World E)
      → Notifies strategy score w (notify s ctx event strategy score w)
  unfolding notify alert_data
  notify-Notifies strategy score w =
      let a = s.notifier (described strategy score) w in
      elim (Option-cases a.0) [
        | inl sent ↦ delivered a.1 (ground arith) (ground arith)
        | inr (e, failed) ↦ undelivered e a.1 (ground arith) (ground arith)
      ]

  -- What the evaluation of one strategy does, in terms of the services' answers.
  pub data Evaluates (strategy : Strategy) (w w' : World E) : Type 0 where
    filtered : ¬ Passes event strategy → w' ≡ w → Evaluates strategy w w'
    embed_failed :
        (v : Vector) (e : Err) (w₁ : World E)
        → Passes event strategy
        → s.embedder ctx strategy.query w ≡ ((v, some e), w₁)
        → w' ≡ count_error w₁
        → Evaluates strategy w w'
    search_failed :
        (v : Vector) (rs : List ScoredResult) (e : Err) (w₁ w₂ : World E)
        → Passes event strategy
        → s.embedder ctx strategy.query w ≡ ((v, none), w₁)
        → s.searcher ctx v strategy.source strategy.tickers result_limit w₁ ≡ ((rs, some e), w₂)
        → w' ≡ count_error w₂
        → Evaluates strategy w w'
    unmatched :
        (v : Vector) (rs : List ScoredResult) (w₁ : World E)
        → Passes event strategy
        → s.embedder ctx strategy.query w ≡ ((v, none), w₁)
        → s.searcher ctx v strategy.source strategy.tickers result_limit w₁ ≡ ((rs, none), w')
        → All (λ r. ¬ IsHit s.ops (s.event_uuid event.id) strategy.similarity_threshold r) rs
        → Evaluates strategy w w'
    notified :
        (v : Vector) (rs : List ScoredResult) (w₁ w₂ : World E) (score : Float32)
        → Passes event strategy
        → s.embedder ctx strategy.query w ≡ ((v, none), w₁)
        → s.searcher ctx v strategy.source strategy.tickers result_limit w₁ ≡ ((rs, none), w₂)
        → FirstHit s.ops (s.event_uuid event.id) strategy.similarity_threshold rs score
        → Notifies strategy score w₂ w'
        → Evaluates strategy w w'

  matched-Evaluates :
      (strategy : Strategy) (w w₁ w₂ : World E) (v : Vector) (rs : List ScoredResult)
      (answer : Float32 × Bool)
      → Passes event strategy
      → s.embedder ctx strategy.query w ≡ ((v, none), w₁)
      → s.searcher ctx v strategy.source strategy.tickers result_limit w₁ ≡ ((rs, none), w₂)
      → Answers s.ops (s.event_uuid event.id) strategy.similarity_threshold rs answer
      → Evaluates strategy w
          (elim answer.1 [ false ↦ w₂ | true ↦ notify s ctx event strategy answer.0 w₂ ])
  matched-Evaluates strategy w w₁ w₂ v rs (score, true) p e q first =
      notified v rs w₁ w₂ score p e q first (notify-Notifies strategy score w₂)
  matched-Evaluates strategy w w₁ w₂ v rs (score, false) p e q (_, miss) =
      unmatched v rs w₁ p e q miss

  -- The notifier is called for a strategy exactly if the event passes its filters, its query is embedded,
  -- the search succeeds and its results hold the event's own point with a score of at least the threshold:
  -- once, with the data of the strategy and the event and the score of the first such result. An alert is
  -- counted exactly if that call succeeds. If one of the services that are called fails, the evaluation
  -- of that strategy ends with one error counted; otherwise no error is counted.
  pub evaluate_strategy-Evaluates :
      (strategy : Strategy) (w : World E)
      → Evaluates strategy w (evaluate_strategy s ctx event strategy w)
  unfolding evaluate_strategy
  evaluate_strategy-Evaluates strategy w =
      elim (Bool-cases (matches_simple_filters event strategy)) [
        | inr no_match ↦
            rw (no_match, evaluate_strategy)
              (filtered (λ p. cc ((matches_simple_filters_iff event strategy).1 p)) refl)
        | inl passes ↦
            let p = (matches_simple_filters_iff event strategy).0 passes in
            let a = s.embedder ctx strategy.query w in
            elim (Option-cases a.0.1) [
              | inr (e, failed) ↦ embed_failed a.0.0 e a.1 p (ground arith) (ground arith)
              | inl fine ↦
                  let b = s.searcher ctx a.0.0 strategy.source strategy.tickers result_limit a.1 in
                  elim (Option-cases b.0.1) [
                    | inr (e, failed) ↦
                        search_failed a.0.0 b.0.0 e a.1 b.1 p (ground arith) (ground arith)
                          (ground arith)
                    | inl found ↦
                        let answer =
                          find_event_match s.ops (s.event_uuid event.id) b.0.0
                            strategy.similarity_threshold in
                        let end : World E = elim answer.1 [
                          | false ↦ b.1
                          | true ↦ notify s ctx event strategy answer.0 b.1
                        ] in
                        let same : evaluate_strategy s ctx event strategy w ≡ end = ground arith in
                        rw same (
                          matched-Evaluates strategy w a.1 b.1 a.0.0 b.0.0 answer p (ground arith)
                            (ground arith)
                            (find_event_match-Answers s.ops (s.event_uuid event.id)
                              strategy.similarity_threshold b.0.0))
                  ]
            ]
      ]

  -- Strategies whose filters the event does not pass cost nothing: no service is called for them.
  pub evaluate_all_filtered :
      (strategies : List Strategy) (w : World E)
      → All (λ strategy. ¬ Passes event strategy) strategies
      → evaluate_all s ctx event strategies w ≡ w
  unfolding evaluate_all evaluate_strategy
  evaluate_all_filtered [] w h = refl
  evaluate_all_filtered (strategy ∷ rest) w h =
      elim (Bool-cases (matches_simple_filters event strategy)) [
        | inl passes ↦ absurd (h.0 ((matches_simple_filters_iff event strategy).0 passes))
        | inr no_match ↦ rw (no_match, evaluate_strategy) (evaluate_all_filtered rest w h.1)
      ]

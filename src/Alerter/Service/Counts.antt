-- ===== src/Alerter/Service/Counts.antt =====
-- internal/alerter/service.go: the counters behind the evaluation of an event.
use signalstream.Common.{
  ℕ, zero, suc, ◌+◌, ◌≤◌, ◌≡◌, ◌≢◌, ◌⊎◌, inl, inr, refl, ap, List, [], ◌∷◌, none, Failure, Text,
  length, arith,
}
use signalstream.Database.{Strategy, Float32}
use signalstream.Metrics.{add_one, add_times}
use signalstream.Platform.{NormalizedEvent, World}
use signalstream.Embedding.{Vector}
use signalstream.Notification.{AlertData}
use signalstream.Alerter.Service.Verdict.{
  Evaluates, filtered, embed_failed, search_failed, unmatched, notified, described, Notifies,
  delivered, undelivered, evaluate_strategy-Evaluates,
}
use signalstream.Alerter.Service.{
  Service, result_limit, evaluate_strategy, evaluate_all, check_event_against_strategies,
}

add_times-add_one : (n c : ℕ) → add_times n (add_one c) ≡ add_one (add_times n c)
unfolding add_times
add_times-add_one zero c = refl
add_times-add_one (suc n) c = ap add_one (add_times-add_one n c)

module _ {E : Type 0} where
  -- `alerts` alerts and `errors` errors more, and both counters as they were otherwise.
  pub record Counted (alerts errors : ℕ) (w w' : World E) : Type 0 where
    pub by_alerts : w'.counters.alerts_triggered ≡ add_times alerts w.counters.alerts_triggered
    pub by_errors : w'.counters.errors_total ≡ add_times errors w.counters.errors_total

module _ {C E : Type 0} (s : Service C E) where
  -- The services that the alerter calls do not touch these two counters.
  pub record ServicesKeep : Type 0 where
    pub embedder_keeps :
        (ctx : C) (query : Text) (w : World E) → Counted 0 0 w (s.embedder ctx query w).1
    pub searcher_keeps :
        (ctx : C) (v : Vector) (sources tickers : List Text) (limit : ℕ) (w : World E)
        → Counted 0 0 w (s.searcher ctx v sources tickers limit w).1
    pub notifier_keeps : (alert : AlertData) (w : World E) → Counted 0 0 w (s.notifier alert w).1
    pub store_keeps : (ctx : C) (w : World E) → Counted 0 0 w (s.strategies ctx w).1

  module _ (keep : ServicesKeep) (ctx : C) (event : NormalizedEvent) where
    -- One strategy adds nothing, one alert or one error.
    abbrev AtMostOne : World E → World E → Type 0
    AtMostOne w w' = Counted 0 0 w w' ⊎ Counted 1 0 w w' ⊎ Counted 0 1 w w'

    Notifies-AtMostOne :
        (strategy : Strategy) (score : Float32) (w w₂ w' : World E)
        → Counted 0 0 w w₂
        → Notifies s ctx event strategy score w₂ w'
        → AtMostOne w w'
    unfolding add_times
    Notifies-AtMostOne strategy score w w₂ w' h (delivered w₁ q r) =
        let k = keep.notifier_keeps (described s ctx event strategy score) w₂ in
        inr (inl (record { by_alerts = ground arith; by_errors = ground arith }))
    Notifies-AtMostOne strategy score w w₂ w' h (undelivered e w₁ q r) =
        let k = keep.notifier_keeps (described s ctx event strategy score) w₂ in
        inr (inr (record { by_alerts = ground arith; by_errors = ground arith }))

    searched_keeps :
        (strategy : Strategy) (v : Vector) (f : Failure) (w w₁ : World E)
        → s.embedder ctx strategy.query w ≡ ((v, f), w₁)
        → let w₂ = (s.searcher ctx v strategy.source strategy.tickers result_limit w₁).1 in
          Counted 0 0 w w₂
    unfolding add_times
    searched_keeps strategy v f w w₁ q =
        let k = keep.embedder_keeps ctx strategy.query w in
        let l = keep.searcher_keeps ctx v strategy.source strategy.tickers result_limit w₁ in
        record { by_alerts = ground arith; by_errors = ground arith }

    Evaluates-AtMostOne :
        (strategy : Strategy) (w w' : World E)
        → Evaluates s ctx event strategy w w'
        → AtMostOne w w'
    unfolding add_times
    Evaluates-AtMostOne strategy w w' (filtered _ r) =
        inl (record { by_alerts = ground arith; by_errors = ground arith })
    Evaluates-AtMostOne strategy w w' (embed_failed v e w₁ _ q r) =
        let k = keep.embedder_keeps ctx strategy.query w in
        inr (inr (record { by_alerts = ground arith; by_errors = ground arith }))
    Evaluates-AtMostOne strategy w w' (search_failed v rs e w₁ w₂ _ q q' r) =
        let k = searched_keeps strategy v none w w₁ q in
        inr (inr (record { by_alerts = ground arith; by_errors = ground arith }))
    Evaluates-AtMostOne strategy w w' (unmatched v rs w₁ _ q q' _) =
        let k = searched_keeps strategy v none w w₁ q in
        inl (record { by_alerts = ground arith; by_errors = ground arith })
    Evaluates-AtMostOne strategy w w' (notified v rs w₁ w₂ score _ q q' _ r) =
        let k = searched_keeps strategy v none w w₁ q in
        Notifies-AtMostOne strategy score w w₂ w'
          (record { by_alerts = ground arith; by_errors = ground arith }) r

    -- What a list of `n` strategies adds: `a` alerts and `e` errors, together at most `n`.
    abbrev AtMost : ℕ → World E → World E → Type 0
    AtMost n w w' = (a : ℕ) × (e : ℕ) × (a + e ≤ n) × Counted a e w w'

    AtMost-suc : (n : ℕ) (w w₁ w₂ : World E) → AtMostOne w w₁ → AtMost n w₁ w₂ → AtMost (suc n) w w₂
    unfolding add_times
    AtMost-suc n w w₁ w₂ (inl h) (a, e, le, k) =
        (a, e, omega arith, record { by_alerts = ground arith; by_errors = ground arith })
    AtMost-suc n w w₁ w₂ (inr (inl h)) (a, e, le, k) = (
      suc a,
      e,
      omega arith,
      record {
        by_alerts = ground (arith, add_times-add_one a w.counters.alerts_triggered);
        by_errors = ground arith;
      },
    )
    AtMost-suc n w w₁ w₂ (inr (inr h)) (a, e, le, k) = (
      a,
      suc e,
      omega arith,
      record {
        by_alerts = ground arith;
        by_errors = ground (arith, add_times-add_one e w.counters.errors_total);
      },
    )

    evaluate_all-AtMost :
        (strategies : List Strategy) (w : World E)
        → AtMost (length strategies) w (evaluate_all s ctx event strategies w)
    unfolding evaluate_all add_times
    evaluate_all-AtMost [] w = (0, 0, omega arith, record { by_alerts = refl; by_errors = refl })
    evaluate_all-AtMost (strategy ∷ rest) w =
        let w₁ = evaluate_strategy s ctx event strategy w in
        AtMost-suc (length rest) w w₁ (evaluate_all s ctx event rest w₁)
          (Evaluates-AtMostOne strategy w w₁ (evaluate_strategy-Evaluates s ctx event strategy w))
          (evaluate_all-AtMost rest w₁)

    -- Checking an event against `n` strategies adds `a` to `alerts_triggered` and `e` to
    -- `errors_total` with `a + e` at most `n`: no strategy counts twice, and none counts both as an
    -- alert and as an error. If the strategies cannot be loaded, one error is counted and no alert.
    -- The hypothesis: the services do not touch the two counters.
    pub check_event-counts :
        (w : World E)
        → let ((strategies, failure), w₁) = s.strategies ctx w in
          let w' = check_event_against_strategies s ctx event w in
          ((failure ≡ none) → (a : ℕ) × (e : ℕ) × (a + e ≤ length strategies) × Counted a e w w')
          × ((failure ≢ none) → Counted 0 1 w w')
    unfolding check_event_against_strategies add_times
    check_event-counts w =
        let k = keep.store_keeps ctx w in
        let r = s.strategies ctx w in
        (
          λ fine.
              let (a, e, le, c) = evaluate_all-AtMost r.0.0 r.1 in
              (a, e, le, record { by_alerts = ground arith; by_errors = ground arith }),
          λ failed. record { by_alerts = ground arith; by_errors = ground arith },
        )

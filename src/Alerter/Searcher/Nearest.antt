-- ===== src/Alerter/Searcher/Nearest.antt =====
-- internal/alerter/service.go: the ten nearest points that a search asks for, and the event's own point
-- among them. The collection is a list of points, and the score of a point for a vector is a parameter.
use signalstream.Common.{
  All-In, In-map, ℕ, ◌≡◌, ◌⊎◌, inl, inr, refl, sym, ap, ◌∙◌, subst, true, List, [], ◌∷◌, map,
  length, none, Result, ok, Text, codes, In, All, Bool-cases, Option-cases, Result-cases, arith,
}
use signalstream.Database.{Strategy, Float32}
use signalstream.Platform.{NormalizedEvent, World, Action}
use signalstream.Retry.{Floats, Runtime, default_config, with_local, do_retry}
use signalstream.Retry.Outcome.{do_retry-last_call}
use signalstream.Embedding.{Vector}
use signalstream.Alerter.Match.{ScoredResult, matches_simple_filters, find_event_match}
use signalstream.Alerter.Match.Laws.{IsHit, FirstHit, Answers, find_event_match-Answers}
use signalstream.Alerter.Qdrant.{Filter, Payload, build_qdrant_filter, point_payload}
use signalstream.Alerter.Qdrant.Agreement.{FilterSemantics, build_qdrant_filter-agrees}
use signalstream.Alerter.Searcher.{ScoredPoint, to_result, try_query, query_similar}
use signalstream.Alerter.Service.Verdict.{Notifies, notify-Notifies}
use signalstream.Alerter.Service.{Service, result_limit, notify, evaluate_strategy}

pub record Point : Type 0 where
  pub uuid : Text
  pub payload : Payload

module _ (sem : FilterSemantics) (score : Vector → Point → Float32)
    (at_least : Float32 → Float32 → Type 0) (points : List Point) where
  abbrev pub scored : Vector → Point → ScoredPoint
  scored v p = record { uuid = p.uuid; score = score v p }

  -- What Qdrant documents of an answer: an accepted point is in it, or it is full of points that score
  -- at least as high.
  abbrev pub Nearest : Vector → Filter → ℕ → List ScoredPoint → Type 0
  Nearest v f limit resp =
      (p : Point)
      → In p points
      → sem.accepts f p.payload ≡ true
      → In (scored v p) resp
        ⊎ ((length resp ≡ limit) × All (λ r. at_least r.score (score v p)) resp)

  abbrev pub SearchLaw :
      {C E : Type 0} → (C → Vector → Filter → ℕ → Action E (Result (List ScoredPoint))) → Type 0
  SearchLaw {C} {E} query =
      (ctx : C) (v : Vector) (f : Filter) (limit : ℕ) (w w' : World E) (resp : List ScoredPoint)
      → query ctx v f limit w ≡ (ok resp, w')
      → Nearest v f limit resp

-- A nil error comes with the points that a query has just returned.
query_similar-returned :
    {C E F : Type 0} (query : C → Vector → Filter → ℕ → Action E (Result (List ScoredPoint)))
    (fl : Floats F) (runtime : C → Runtime (World E) F) (ctx : C) (v : Vector)
    (sources tickers : List Text) (limit : ℕ) (w w' : World E) (rs : List ScoredResult)
    → query_similar query fl runtime ctx v sources tickers limit w ≡ ((rs, none), w')
    → (before : World E) × (resp : List ScoredPoint) × (query ctx v
          (build_qdrant_filter sources tickers)
          limit
          before
        ≡ (ok resp, w'))
      × (rs ≡ map (to_result query) resp)
unfolding query_similar try_query default_config
query_similar-returned query fl runtime ctx v sources tickers limit w w' rs h =
    let f = build_qdrant_filter sources tickers in
    let done =
      do_retry fl (with_local (runtime ctx)) (default_config fl) (codes "qdrant-query")
        (try_query query ctx v f limit) (w, []) in
    elim (Option-cases done.0) [
      | inr (e, failed) ↦ absurd (ground arith)
      | inl fine ↦
          let ((before, old), e) =
            do_retry-last_call fl (with_local (runtime ctx)) (default_config fl)
              (codes "qdrant-query") (try_query query ctx v f limit) 3 (w, []) refl fine in
          elim (Result-cases (query ctx v f limit before).0) [
            | inr (e', bad) ↦ absurd (ground arith)
            | inl (resp, good) ↦ (before, resp, ground arith, ground arith)
          ]
    ]

module _ {C E F : Type 0} (s : Service C E)
    (query : C → Vector → Filter → ℕ → Action E (Result (List ScoredPoint))) (fl : Floats F)
    (runtime : C → Runtime (World E) F) (sem : FilterSemantics) (score : Vector → Point → Float32)
    (at_least : Float32 → Float32 → Type 0) (points : List Point)
    (law : SearchLaw sem score at_least points query) (rfc3339 : ℕ → Text) (ctx : C)
    (event : NormalizedEvent) where
  -- The alerter over `QdrantSearcher`.
  abbrev pub searching : Service C E
  searching = record s { searcher = query_similar query fl runtime }

  -- The point that the enrichment stores for the event.
  abbrev pub own_point : Point
  own_point = record { uuid = s.event_uuid event.id; payload = point_payload rfc3339 event }

  -- The end of an evaluation whose search answered with `rs`: a call of the notifier with the score of the
  -- first hit, or ten results that are no hits and score as high as the event.
  abbrev pub AlertedOrCrowded : Strategy → Vector → List ScoredResult → World E → World E → Type 0
  AlertedOrCrowded strategy v rs w w₂ =
      let w' = evaluate_strategy searching ctx event strategy w in
      let uuid = s.event_uuid event.id in
      let threshold = strategy.similarity_threshold in
      ((found : Float32) × FirstHit s.ops uuid threshold rs found
        × Notifies searching ctx event strategy found w₂ w')
      ⊎ ((length rs ≡ result_limit)
          × All (λ r. at_least r.score (score v own_point)) rs
          × All (λ r. ¬ IsHit s.ops uuid threshold r) rs
          × (w' ≡ w₂))

  own-IsHit :
      (strategy : Strategy) (v : Vector)
      → s.ops.at_least (s.ops.widen (score v own_point)) strategy.similarity_threshold ≡ true
      → IsHit s.ops
          (s.event_uuid event.id)
          strategy.similarity_threshold
          (to_result query (scored sem score at_least points v own_point))
  own-IsHit strategy v h = (refl, h)

  map-All :
      (floor : Float32) (resp : List ScoredPoint)
      → All (λ r. at_least r.score floor) resp
      → All (λ (r : ScoredResult). at_least r.score floor) (map (to_result query) resp)
  map-All floor [] h = tt
  map-All floor (r ∷ resp) h = (h.0, map-All floor resp h.1)

  length-results : (resp : List ScoredPoint) → length (map (to_result query) resp) ≡ length resp
  length-results [] = refl
  length-results (r ∷ resp) = ground (arith, length-results resp)

  -- For an event that passes the filters of a strategy, and whose point is in the collection and scores at
  -- least the threshold for the strategy's query, the notifier is called once for the strategy, with the
  -- score of the first of the search's results that is the event's point with a score of at least the
  -- threshold, and an alert or, if it fails, an error is counted; unless the search's own results are ten
  -- that all score at least as high as the event's point, none of which is that point with a score of at
  -- least the threshold: then the world is as the search left it. The conditions: the query is embedded and
  -- the search succeeds, Qdrant evaluates filters as it documents, and its answers leave an accepted point
  -- out only if they are full of points that score at least as high.
  pub alerted_or_crowded :
      (strategy : Strategy) (v : Vector) (rs : List ScoredResult) (w w₁ w₂ : World E)
      → matches_simple_filters event strategy ≡ true
      → s.embedder ctx strategy.query w ≡ ((v, none), w₁)
      → query_similar query fl runtime ctx v strategy.source strategy.tickers result_limit w₁
        ≡ ((rs, none), w₂)
      → In own_point points
      → s.ops.at_least (s.ops.widen (score v own_point)) strategy.similarity_threshold ≡ true
      → AlertedOrCrowded strategy v rs w w₂
  unfolding evaluate_strategy
  alerted_or_crowded strategy v rs w w₁ w₂ passes embedded searched stored reaches =
      let uuid = s.event_uuid event.id in
      let threshold = strategy.similarity_threshold in
      let f = build_qdrant_filter strategy.source strategy.tickers in
      let accepted = build_qdrant_filter-agrees rfc3339 event sem strategy ∙ passes in
      let (before, resp, asked, shown) =
        query_similar-returned query fl runtime ctx v strategy.source strategy.tickers result_limit
          w₁ w₂ rs searched in
      let near = law ctx v f result_limit before w₂ resp asked own_point stored accepted in
      let answer = find_event_match s.ops uuid rs threshold in
      let verdict = find_event_match-Answers s.ops uuid threshold rs in
      elim (Bool-cases answer.1) [
        | inl hit ↦
            let sent : evaluate_strategy searching ctx event strategy w
                ≡ notify searching ctx event strategy answer.0 w₂ =
              ground arith in
            inl (
              answer.0,
              subst (λ b. Answers s.ops uuid threshold rs (answer.0, b)) hit verdict,
              rw sent (notify-Notifies searching ctx event strategy answer.0 w₂),
            )
        | inr miss ↦
            let silent : evaluate_strategy searching ctx event strategy w ≡ w₂ = ground arith in
            let none_hit : All (λ r. ¬ IsHit s.ops uuid threshold r) rs =
              (subst (λ b. Answers s.ops uuid threshold rs (answer.0, b)) miss verdict).1 in
            elim near [
              | inl there ↦
                  let listed =
                    subst (In (to_result query (scored sem score at_least points v own_point)))
                      (sym shown) (In-map (to_result query) resp _ there) in
                  absurd (
                    All-In (λ r. ¬ IsHit s.ops uuid threshold r) rs _ none_hit listed
                      (own-IsHit strategy v reaches))
              | inr (full, above) ↦ inr (
                ap length shown ∙ length-results resp ∙ full,
                subst (All (λ (r : ScoredResult). at_least r.score (score v own_point))) (sym shown)
                    (map-All (score v own_point) resp above),
                none_hit,
                silent,
              )
            ]
      ]

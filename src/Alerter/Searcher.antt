-- ===== src/Alerter/Searcher.antt =====
-- internal/alerter/service.go, `QdrantSearcher`: a similarity search with retries. The Qdrant client
-- is a parameter.
pub mod Nearest
use signalstream.Common.{ℕ, List, [], map, some, none, Failure, Result, ok, err, Text, codes}
use signalstream.Database.{Float32}
use signalstream.Platform.{World, Action, count_retry}
use signalstream.Retry.{Floats, Runtime, default_config, do_retry, with_local}
use signalstream.Embedding.{Vector}
use signalstream.Alerter.Match.{ScoredResult}
use signalstream.Alerter.Qdrant.{Filter, build_qdrant_filter}

-- `qdrant.ScoredPoint`, as far as the program reads it.
pub record ScoredPoint : Type 0 where
  pub uuid : Text
  pub score : Float32

-- The interface `VectorSearcher`
abbrev pub VectorSearcher : Type 0 → Type 0 → Type 0
VectorSearcher C E = C → Vector → List Text → List Text → ℕ → Action E (List ScoredResult × Failure)

module _ {C E : Type 0}
    (query : C → Vector → Filter → ℕ → Action E (Result (List ScoredPoint))) where
  -- The closure that `QuerySimilar` retries; `points` is the variable that it assigns.
  unfoldable pub try_query :
      C → Vector → Filter → ℕ → World E × List ScoredPoint → Failure × (World E × List ScoredPoint)
  try_query ctx vector conditions limit (w, points) =
      let (reply, w') = query ctx vector conditions limit w in
      elim reply [ err e ↦ (some e, (count_retry w', points)) | ok resp ↦ (none, (w', resp)) ]

  abbrev pub to_result : ScoredPoint → ScoredResult
  to_result p = record { point_id = p.uuid; score = p.score }

  unfoldable pub query_similar :
      {F : Type 0} → Floats F → (C → Runtime (World E) F) → VectorSearcher C E
  query_similar fl runtime ctx vector sources tickers limit w =
      let conditions = build_qdrant_filter sources tickers in
      let (failure, (w', points)) =
        do_retry fl (with_local (runtime ctx)) (default_config fl) (codes "qdrant-query")
          (try_query ctx vector conditions limit) (w, []) in
      elim failure [ some e ↦ (([], some e), w') | none ↦ ((map to_result points, none), w') ]

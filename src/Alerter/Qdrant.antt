-- ===== src/Alerter/Qdrant.antt =====
-- internal/alerter/service.go, `buildQdrantFilter` and `QdrantSearcher`; and the payload that
-- internal/enrichment/service.go stores with a point, on which such a filter is evaluated.
pub mod Agreement
use signalstream.Common.{ℕ, List, [], ◌∷◌, Text, codes, is_empty, if◌then◌else◌}
use signalstream.Platform.{NormalizedEvent}

-- The parts of `qdrant.Filter` and `qdrant.Condition` that the program builds.
mutual
  pub data Filter : Type 0 where
    filter : (must should : Conditions) → Filter

  pub data Condition : Type 0 where
    -- a `FieldCondition` with a `Match_Keyword`
    keyword : (key value : Text) → Condition
    nested : Filter → Condition

  pub data Conditions : Type 0 where
    nil : Conditions
    cons : Condition → Conditions → Conditions

-- `append(conditions, c)`
unfoldable pub snoc : Conditions → Condition → Conditions
snoc nil c = cons c nil
snoc (cons d ds) c = cons d (snoc ds c)

-- The loop that makes one condition for each allowed value.
unfoldable pub keywords_from : Text → Conditions → List Text → Conditions
keywords_from key conditions [] = conditions
keywords_from key conditions (v ∷ vs) = keywords_from key (snoc conditions (keyword key v)) vs

-- One condition is added to `Must` as it is, more of them as a filter with `Should`.
unfoldable pub add_group : Conditions → Conditions → Conditions
add_group must (cons c nil) = snoc must c
add_group must conditions = snoc must (nested (filter nil conditions))

-- One block of `buildQdrantFilter`.
unfoldable pub add_clause : Text → List Text → Conditions → Conditions
add_clause key [] must = must
add_clause key (v ∷ vs) must = add_group must (keywords_from key nil (v ∷ vs))

unfoldable pub build_qdrant_filter : List Text → List Text → Filter
build_qdrant_filter sources tickers =
    filter (add_clause (codes "tickers") tickers (add_clause (codes "source") sources nil)) nil

-- `qdrant.Value`: a string, or a list of strings.
pub data Value : Type 0 where
  string : Text → Value
  strings : List Text → Value

abbrev pub Payload : Type 0
Payload = List (Text × Value)

-- The payload that `upsertPoint` builds; the time is already printed.
unfoldable pub point_payload : (ℕ → Text) → NormalizedEvent → Payload
point_payload rfc3339 event =
    let base : Payload =
      (codes "source", string event.source)
      ∷ (codes "title", string event.title)
      ∷ (codes "content_url", string event.content_url)
      ∷ (codes "published_at", string (rfc3339 event.published_at))
      ∷ [] in
    if is_empty event.tickers then base else (codes "tickers", strings event.tickers) ∷ base

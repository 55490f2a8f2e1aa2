-- ===== src/Enrichment.antt =====
-- internal/enrichment/service.go: fetch the article of an event, embed it, store the point in Qdrant.
-- The fetcher, the Qdrant client and the UUID and time formats are parameters.
pub mod Stored
pub mod Readability
mod Tests
use signalstream.Common.{
  ℕ, Bool, true, false, List, [], ◌∷◌, ◌++◌, ◌*◌, Option, none, some, Failure, Err, Result, ok, err,
  plain, wrap, Text, codes, length, ltb, if◌then◌else◌,
}
use signalstream.Platform.{NormalizedEvent, World, Action, count_error, count_retry, count_enriched}
use signalstream.Retry.{Floats, Runtime, default_config, do_retry, second}
use signalstream.Embedding.{Vector, Embedder}
use signalstream.Alerter.Qdrant.{Payload, point_payload}

-- `ContentFetcher`: the text of the page, within a timeout.
abbrev pub Fetcher : Type 0 → Type 0
Fetcher E = Text → ℕ → Action E (Result Text)

-- `Upsert` of one point with `Wait`.
abbrev pub Upsert : Type 0 → Type 0 → Type 0
Upsert C E = C → Text → Vector → Payload → Action E Failure

pub record Service (C E F : Type 0) : Type 0 where
  pub embedder : Embedder C E
  pub client : Option (Upsert C E)
  pub fetcher : Fetcher E
  pub floats : Floats F
  pub runtime : C → Runtime (World E) F
  pub event_uuid : Text → Text
  pub rfc3339 : ℕ → Text

-- `len(text) < 50`
abbrev pub min_text_length : ℕ
min_text_length = 50

module _ {C E F : Type 0} (s : Service C E F) (ctx : C) where
  -- The closure that `upsertPoint` retries.
  unfoldable pub try_upsert : Upsert C E → NormalizedEvent → Vector → World E → Failure × World E
  try_upsert upsert event vector w =
      let (failure, w') =
        upsert ctx (s.event_uuid event.id) vector (point_payload s.rfc3339 event) w in
      elim failure [ none ↦ (none, w') | some e ↦ (some e, count_retry w') ]

  unfoldable pub upsert_point : NormalizedEvent → Vector → Action E Failure
  upsert_point event vector w = elim s.client [
    | none ↦ (some (plain (codes "qdrant client not initialized")), w)
    | some upsert ↦
        do_retry s.floats (s.runtime ctx) (default_config s.floats) (codes "qdrant-upsert")
          (try_upsert upsert event vector) w
  ]

  -- The end of `ProcessEvent`, from the fetched text on.
  unfoldable pub store_text : NormalizedEvent → Text → Action E Failure
  store_text event text w =
      let event' = record event { raw_text = text } in
      let ((vector, failure), w₁) = s.embedder ctx event'.raw_text w in
      elim failure [
        | some e ↦ (some (wrap (codes "embed event text: ") e), count_error w₁)
        | none ↦
            let (failure', w₂) = upsert_point event' vector w₁ in
            elim failure' [
              | some e ↦ (some (wrap (codes "upsert to qdrant: ") e), count_error w₂)
              | none ↦ (none, count_enriched w₂)
            ]
      ]

  unfoldable pub process_event : NormalizedEvent → Action E Failure
  process_event event w =
      let (reply, w') = s.fetcher event.content_url (30 * second) w in
      elim reply [
        | err e ↦ (none, w')
        | ok text ↦
            if ltb (length text) min_text_length then (none, w') else store_text event text w'
      ]

-- `EnsureCollectionExists`: the collection is created if the database does not have it.
unfoldable pub ensure_collection_exists :
    {E : Type 0} → Action E (Result Bool) → Action E Failure → Action E Failure
ensure_collection_exists collection_exists create_collection w =
    let (reply, w') = collection_exists w in
    elim reply [
      | err e ↦ (some (wrap (codes "check collection 'financial_events': ") e), w')
      | ok present ↦ elim present [
        | true ↦ (none, w')
        | false ↦
            let (failure, w'') = create_collection w' in
            elim failure [
              | some e ↦ (some (wrap (codes "create collection 'financial_events': ") e), w'')
              | none ↦ (none, w'')
            ]
      ]
    ]

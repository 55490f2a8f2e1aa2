-- ===== src/Enrichment/Stored.antt =====
-- internal/enrichment/service.go: when an event's point is stored, and what `ProcessEvent` answers.
use std.Path.{fun_ext}
use signalstream.Common.{
  ◌*◌, ◌≤◌, ◌<◌, ◌≡◌, inl, inr, refl, none, some, Failure, Err, ok, err, wrap, plain, subst, Text,
  codes, length, ltb, Bool-cases, Option-cases, Result-cases, arith,
}
use signalstream.Platform.{NormalizedEvent, World, count_error, count_enriched, count_retry}
use signalstream.Retry.{second, default_config, do_retry}
use signalstream.Retry.Outcome.{Returns, Returns-none, do_retry-Returns}
use signalstream.Embedding.{Vector}
use signalstream.Alerter.Qdrant.{point_payload}
use signalstream.Enrichment.{
  Service, Upsert, min_text_length, try_upsert, upsert_point, store_text, process_event,
}

module _ {C E F : Type 0} (s : Service C E F) (ctx : C) where
  -- One call of the client, with the point of the event under the name that its id gives; a failed call
  -- counts as a retry.
  abbrev pub offer : Upsert C E → NormalizedEvent → Vector → World E → Failure × World E
  offer upsert event v w =
      let (failure, w') = upsert ctx (s.event_uuid event.id) v (point_payload s.rfc3339 event) w in
      (failure, elim failure [ none ↦ w' | some e ↦ count_retry w' ])

  -- What four such calls with waits between them come to, the first in the world `w`.
  abbrev pub Offers : Upsert C E → NormalizedEvent → Vector → World E → Failure → World E → Type 0
  Offers upsert event v w failure w' =
      Returns s.floats (s.runtime ctx) (default_config s.floats) (codes "qdrant-upsert")
        (offer upsert event v) 3 w failure w'

  -- The client has just accepted the point of the event, as the last of the calls.
  pub record Stores (event : NormalizedEvent) (v : Vector) (w w' : World E) : Type 0 where
    pub upsert : Upsert C E
    pub has_client : s.client ≡ some upsert
    pub offers : Offers upsert event v w none w'
    pub before : World E
    pub accepted :
        upsert ctx (s.event_uuid event.id) v (point_payload s.rfc3339 event) before ≡ (none, w')

  -- There is no client, or it has not accepted the point of the event in the calls allowed.
  pub data Fails (event : NormalizedEvent) (v : Vector) (w : World E) (e : Err) (w' : World E)
      : Type 0 where
    no_client :
        s.client ≡ none
        → e ≡ plain (codes "qdrant client not initialized")
        → w' ≡ w
        → Fails event v w e w'
    not_accepted :
        (upsert : Upsert C E)
        → s.client ≡ some upsert
        → Offers upsert event v w (some e) w'
        → Fails event v w e w'

  try_upsert-eq-offer :
      (upsert : Upsert C E) (event : NormalizedEvent) (v : Vector)
      → try_upsert s ctx upsert event v ≡ offer upsert event v
  unfolding try_upsert
  try_upsert-eq-offer upsert event v = fun_ext (λ w.
      let a = upsert ctx (s.event_uuid event.id) v (point_payload s.rfc3339 event) w in
      elim (Option-cases a.0) [ inl fine ↦ ground arith | inr (e, failed) ↦ ground arith ])

  offer-eq-none :
      (upsert : Upsert C E) (event : NormalizedEvent) (v : Vector) (w w' : World E)
      → offer upsert event v w ≡ (none, w')
      → upsert ctx (s.event_uuid event.id) v (point_payload s.rfc3339 event) w ≡ (none, w')
  offer-eq-none upsert event v w w' h =
      elim (Option-cases
        (upsert ctx (s.event_uuid event.id) v (point_payload s.rfc3339 event) w).0) [
          | inl fine ↦ ground arith
          | inr (e, failed) ↦ absurd (ground arith)
        ]

  Offers-accepted :
      (upsert : Upsert C E) (event : NormalizedEvent) (v : Vector) (w w' : World E)
      → Offers upsert event v w none w'
      → (before : World E) × (upsert ctx
            (s.event_uuid event.id)
            v
            (point_payload s.rfc3339 event)
            before
          ≡ (none, w'))
  Offers-accepted upsert event v w w' offers =
      let (before, e) =
        Returns-none s.floats (s.runtime ctx) (default_config s.floats) (codes "qdrant-upsert")
          (offer upsert event v) 3 w w' offers in
      (before, offer-eq-none upsert event v before w' e)

  -- What `upsertPoint` comes to.
  abbrev Upserts : NormalizedEvent → Vector → World E → Failure → World E → Type 0
  Upserts event v w none w' = Stores event v w w'
  Upserts event v w (some e) w' = Fails event v w e w'

  upsert_point-Upserts :
      (event : NormalizedEvent) (v : Vector) (w : World E)
      → let (failure, w') = upsert_point s ctx event v w in Upserts event v w failure w'
  unfolding upsert_point
  upsert_point-Upserts event v w = elim (Option-cases s.client) [
    | inl missing ↦
        let same : upsert_point s ctx event v w
            ≡ (some (plain (codes "qdrant client not initialized")), w) =
          ground arith in
        rw same (no_client missing refl refl)
    | inr (upsert, there) ↦
        let r =
          do_retry s.floats (s.runtime ctx) (default_config s.floats) (codes "qdrant-upsert")
            (offer upsert event v) w in
        let same : upsert_point s ctx event v w ≡ r =
          rw (there, upsert_point, try_upsert-eq-offer) refl in
        rw same (
          go upsert there r.0 r.1 (
            do_retry-Returns s.floats (s.runtime ctx) (default_config s.floats)
              (codes "qdrant-upsert") (offer upsert event v) 3 w (unfold default_config in refl)))
  ]
    where
      go :
          (upsert : Upsert C E)
          → s.client ≡ some upsert
          → (failure : Failure) (w' : World E) → Offers upsert event v w failure w'
          → Upserts event v w failure w'
      go upsert there none w' offers =
          let (before, e) = Offers-accepted upsert event v w w' offers in
          record {
            upsert = upsert;
            has_client = there;
            offers = offers;
            before = before;
            accepted = e;
          }
      go upsert there (some e) w' offers = not_accepted upsert there offers

  -- What `ProcessEvent` does, in terms of the services' answers.
  pub data Processes (event : NormalizedEvent) (w : World E) (failure : Failure) (w' : World E)
      : Type 0 where
    unreachable :
        (e : Err)
        → s.fetcher event.content_url (30 * second) w ≡ (err e, w')
        → failure ≡ none
        → Processes event w failure w'
    too_short :
        (text : Text)
        → s.fetcher event.content_url (30 * second) w ≡ (ok text, w')
        → length text < min_text_length
        → failure ≡ none
        → Processes event w failure w'
    not_embedded :
        (text : Text) (v : Vector) (e : Err) (w₁ w₂ : World E)
        → s.fetcher event.content_url (30 * second) w ≡ (ok text, w₁)
        → min_text_length ≤ length text
        → s.embedder ctx text w₁ ≡ ((v, some e), w₂)
        → failure ≡ some (wrap (codes "embed event text: ") e)
        → w' ≡ count_error w₂
        → Processes event w failure w'
    not_stored :
        (text : Text) (v : Vector) (e : Err) (w₁ w₂ w₃ : World E)
        → s.fetcher event.content_url (30 * second) w ≡ (ok text, w₁)
        → min_text_length ≤ length text
        → s.embedder ctx text w₁ ≡ ((v, none), w₂)
        → Fails (record event { raw_text = text }) v w₂ e w₃
        → failure ≡ some (wrap (codes "upsert to qdrant: ") e)
        → w' ≡ count_error w₃
        → Processes event w failure w'
    stored :
        (text : Text) (v : Vector) (w₁ w₂ w₃ : World E)
        → s.fetcher event.content_url (30 * second) w ≡ (ok text, w₁)
        → min_text_length ≤ length text
        → s.embedder ctx text w₁ ≡ ((v, none), w₂)
        → Stores (record event { raw_text = text }) v w₂ w₃
        → failure ≡ none
        → w' ≡ count_enriched w₃
        → Processes event w failure w'

  abbrev Fits : NormalizedEvent → World E → Failure × World E → Type 0
  Fits event w r = Processes event w r.0 r.1

  store_text-Fits :
      (event : NormalizedEvent) (text : Text) (w w₁ : World E)
      → s.fetcher event.content_url (30 * second) w ≡ (ok text, w₁)
      → min_text_length ≤ length text
      → Fits event w (store_text s ctx event text w₁)
  unfolding store_text
  store_text-Fits event text w w₁ f long =
      let a = s.embedder ctx text w₁ in
      let event' : NormalizedEvent = record event { raw_text = text } in
      elim (Option-cases a.0.1) [
        | inr (e, failed) ↦
            not_embedded text a.0.0 e w₁ a.1 f long (ground arith) (ground arith) (ground arith)
        | inl fine ↦
            let b = upsert_point s ctx event' a.0.0 a.1 in
            let done = upsert_point-Upserts event' a.0.0 a.1 in
            elim (Option-cases b.0) [
              | inr (e, failed) ↦
                  not_stored text a.0.0 e w₁ a.1 b.1 f long (ground arith)
                    (subst (λ f'. Upserts event' a.0.0 a.1 f' b.1) failed done) (ground arith)
                    (ground arith)
              | inl ended ↦
                  stored text a.0.0 w₁ a.1 b.1 f long (ground arith)
                    (subst (λ f'. Upserts event' a.0.0 a.1 f' b.1) ended done) (ground arith)
                    (ground arith)
            ]
      ]

  -- `ProcessEvent` answers nil exactly if the page could not be fetched, its text is shorter than 50
  -- bytes, or the client has just accepted the event's point; only the last counts as enriched. A
  -- failed embedding is an error and is counted as one, and so is a point that is not stored: because
  -- there is no client, or because no call of the client has accepted it when the calls end, which they
  -- do by the context or after four of them.
  pub process_event-Processes :
      (event : NormalizedEvent) (w : World E)
      → let (failure, w') = process_event s ctx event w in Processes event w failure w'
  unfolding process_event
  process_event-Processes event w =
      let r = s.fetcher event.content_url (30 * second) w in
      elim (Result-cases r.0) [
        | inr (e, failed) ↦ rw (failed, process_event) (unreachable e (ground arith) refl)
        | inl (text, fetched) ↦ elim (Bool-cases (ltb (length text) min_text_length)) [
          | inl short ↦
              rw (fetched, process_event)
                (rw (short, process_event) (too_short text (ground arith) (ground arith) refl))
          | inr long ↦
              let same : process_event s ctx event w ≡ store_text s ctx event text r.1 =
                ground arith in
              rw same (store_text-Fits event text w r.1 (ground arith) (ground arith))
        ]
      ]

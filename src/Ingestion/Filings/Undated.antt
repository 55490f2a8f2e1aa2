-- ===== src/Ingestion/Filings/Undated.antt =====
-- internal/ingestion/sec_filings.go: a feed entry without a readable date, and a send that panics.
use signalstream.Common.{
  ◌≡◌, ◌≢◌, ◌↔◌, ◌⊎◌, List, [], ◌∷◌, none, some, Result, ok, err, Text, text_eq_iff, Option-cases,
  subst, inl, inr, arith,
}
use signalstream.Platform.{NormalizedEvent, World}
use signalstream.Sec.{CikMap}
use signalstream.Ingestion.News.{Send, send_backwards}
use signalstream.Ingestion.Filings.{Clock, FeedItem, collect_filings, poll_sec_feed}

-- Some entry in front of the one seen last has no date.
abbrev pub UndatedNew : Text → List FeedItem → Type 0
UndatedNew last [] = ⊥
UndatedNew last (filing ∷ rest) =
    (filing.guid ≢ last) × ((filing.published_parsed ≡ none) ⊎ UndatedNew last rest)

collect_filings-none :
    (cik_map : CikMap) (now : Clock) (last : Text) (items : List FeedItem)
    → (collect_filings cik_map now last items ≡ none) ↔ UndatedNew last items
unfolding collect_filings
collect_filings-none cik_map now last [] = ground arith
collect_filings-none cik_map now last (filing ∷ rest) =
    ground (arith, text_eq_iff filing.guid last, collect_filings-none cik_map now last rest)

module _ {E : Type 0} (send : Send E) where
  -- Some event cannot be sent, behind the later ones of the list, which were.
  abbrev pub SendPanics : List NormalizedEvent → World E → Type 0
  SendPanics [] w = ⊥
  SendPanics (event ∷ events) w =
      SendPanics events w
      ⊎ ((w' : World E) × (send_backwards send events w ≡ some w') × (send event w' ≡ none))

  send_backwards-none :
      (events : List NormalizedEvent) (w : World E)
      → (send_backwards send events w ≡ none) ↔ SendPanics events w
  unfolding send_backwards
  send_backwards-none [] w = ground arith
  send_backwards-none (event ∷ events) w =
      let ih = send_backwards-none events w in
      elim (Option-cases (send_backwards send events w)) [
        | inl stuck ↦ (λ h. inl (ih.0 stuck), λ h. ground arith)
        | inr (w', done) ↦ (
          λ h. inr (w', done, ground arith),
          λ h. elim h [ inl p ↦ absurd (ground (arith, ih.1 p)) | inr (w'', q, p) ↦ ground arith ],
        )
      ]

  -- Behind the loop over the entries, a poll panics exactly if the sends do.
  poll_sec_feed-sends :
      (cik_map : CikMap) (now : Clock) (items : List FeedItem) (last : Text)
      (events : List NormalizedEvent) (w : World E)
      → collect_filings cik_map now last items ≡ some events
      → (poll_sec_feed send cik_map now (ok items) last w ≡ none)
        ↔ (send_backwards send events w ≡ none)
  unfolding poll_sec_feed send_backwards
  poll_sec_feed-sends cik_map now items last [] w good = ground arith
  poll_sec_feed-sends cik_map now items last (first ∷ rest) w good =
      elim (Option-cases (send_backwards send (first ∷ rest) w)) [
        | inl stuck ↦ ground arith
        | inr (w', done) ↦ ground arith
      ]

  -- What makes a poll panic, with this answer of the feed.
  abbrev pub WillPanic : CikMap → Clock → Result (List FeedItem) → Text → World E → Type 0
  WillPanic cik_map now (err e) last w = ⊥
  WillPanic cik_map now (ok items) last w =
      UndatedNew last items
      ⊎ ((events : List NormalizedEvent) × (collect_filings cik_map now last items ≡ some events)
          × SendPanics events w)

  -- A poll of the EDGAR feed panics exactly if the feed was fetched and an entry in front of the one
  -- seen last has no readable date, or all of these have one and the send of one of their events
  -- panics, behind the sends of the older ones. A poll whose feed was not fetched does not panic.
  pub poll_sec_feed-panics :
      (cik_map : CikMap) (now : Clock) (reply : Result (List FeedItem)) (last : Text) (w : World E)
      → (poll_sec_feed send cik_map now reply last w ≡ none) ↔ WillPanic cik_map now reply last w
  unfolding poll_sec_feed
  poll_sec_feed-panics cik_map now (err e) last w = ground arith
  poll_sec_feed-panics cik_map now (ok items) last w =
      let undated = collect_filings-none cik_map now last items in
      elim (Option-cases (collect_filings cik_map now last items)) [
        | inl bad ↦ (λ h. inl (undated.0 bad), λ h. ground arith)
        | inr (events, good) ↦
            let sending = send_backwards-none events w in
            let through = poll_sec_feed-sends cik_map now items last events w good in
            (
              λ h. inr (events, good, sending.0 (through.0 h)),
              λ h. elim h [
                | inl u ↦ absurd (ground (arith, undated.1 u))
                | inr (events', good', p) ↦
                    let same : events' ≡ events = ground arith in
                    through.1 (sending.1 (subst (λ es. SendPanics es w) same p))
              ],
            )
      ]

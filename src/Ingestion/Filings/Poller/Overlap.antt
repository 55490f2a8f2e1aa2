-- ===== src/Ingestion/Filings/Poller/Overlap.antt =====
-- internal/ingestion/sec_filings.go: the first poll that ends after one of the ticker.
use signalstream.Common.{
  ℕ, ◌≡◌, ◌≢◌, refl, List, [], ◌∷◌, none, some, ok, Text, All, map, reverse, text_eq_iff, arith,
}
use signalstream.Platform.{NormalizedEvent, World}
use signalstream.Sec.{CikMap}
use signalstream.Ingestion.News.Once.{OpenSend, open_channel, send_in_order, send_backwards-eq}
use signalstream.Ingestion.Filings.{Clock, FeedItem, filing_event, collect_filings, poll_sec_feed}
use signalstream.Ingestion.Filings.Poller.{idle, fetched, returned, Poller, Step, Reach, here, next}

-- A filing with a date that is not the one seen last.
abbrev pub IsNew : Text → FeedItem → Type 0
IsNew last filing = (filing.guid ≢ last) × (date : ℕ) × (filing.published_parsed ≡ some date)

-- The event of a filing with a date.
abbrev dated_event : CikMap → Clock → FeedItem → NormalizedEvent
dated_event cik_map now filing =
    filing_event cik_map now filing (elim filing.published_parsed [ none ↦ 0 | some date ↦ date ])

abbrev pub filing_events : CikMap → Clock → List FeedItem → List NormalizedEvent
filing_events cik_map now filings = map (dated_event cik_map now) filings

collect_filings-new :
    (cik_map : CikMap) (now : Clock) (last : Text) (filings : List FeedItem)
    → All (IsNew last) filings
    → collect_filings cik_map now last filings ≡ some (filing_events cik_map now filings)
unfolding collect_filings
collect_filings-new cik_map now last [] h = refl
collect_filings-new cik_map now last (filing ∷ rest) h =
    let ((other, date, there), more) = h in
    ground (arith, text_eq_iff filing.guid last, collect_filings-new cik_map now last rest more)

module _ {E : Type 0} (send : OpenSend E) where
  abbrev all_sent : List NormalizedEvent → World E → World E
  all_sent events w = send_in_order send (reverse events) w

  poll_sec_feed-new :
      (cik_map : CikMap) (now : Clock) (last : Text) (filing : FeedItem) (rest : List FeedItem)
      (w : World E)
      → All (IsNew last) (filing ∷ rest)
      → poll_sec_feed (open_channel send) cik_map now (ok (filing ∷ rest)) last w
        ≡ some (filing.guid, all_sent (filing_events cik_map now (filing ∷ rest)) w)
  unfolding poll_sec_feed filing_event
  poll_sec_feed-new cik_map now last filing rest w h =
      rw (collect_filings-new cik_map now last (filing ∷ rest) h, poll_sec_feed)
        (rw (send_backwards-eq send (filing_events cik_map now (filing ∷ rest)) w) refl)

  -- The first poll and one of the ticker can overlap so that filings are sent twice: if the first one
  -- fetched a feed, and the ticker's one the same feed with a newer filing in front and ends before it,
  -- then the first one sends all of its filings again, and the poller forgets that it has seen the newer
  -- one. The conditions: the channel is open, both goroutines are about to poll, every filing has a date,
  -- none is the one seen last, and none of the older ones has the id of the newer.
  pub polls_may_overlap :
      (p : Poller E) (cik_map : CikMap) (now now' : Clock) (newer filing : FeedItem)
      (rest : List FeedItem)
      → p.first ≡ idle
      → p.ticker ≡ idle
      → All (IsNew p.last_seen) (newer ∷ filing ∷ rest)
      → All (IsNew newer.guid) (filing ∷ rest)
      → (q : Poller E) × Reach (open_channel send) p q
        × (q.last_seen ≡ filing.guid)
        × (q.world
            ≡ send_in_order send (reverse (filing_events cik_map now (filing ∷ rest))) (
                send_in_order send
                  (reverse (filing_events cik_map now' (newer ∷ filing ∷ rest)))
                  p.world))
  polls_may_overlap p cik_map now now' newer filing rest first_idle ticker_idle new new' =
      let a : Poller E = record p { first = fetched cik_map now (ok (filing ∷ rest)) } in
      let b : Poller E = record a { ticker = fetched cik_map now' (ok (newer ∷ filing ∷ rest)) } in
      let w = all_sent (filing_events cik_map now' (newer ∷ filing ∷ rest)) p.world in
      let c : Poller E = record b { last_seen = newer.guid; ticker = idle; world = w } in
      let w' = all_sent (filing_events cik_map now (filing ∷ rest)) w in
      let d : Poller E = record c { last_seen = filing.guid; first = returned; world = w' } in
      let r1 = next here (Step.first_fetches p cik_map now (ok (filing ∷ rest)) first_idle) in
      let r2 = next r1 (Step.ticks a cik_map now' (ok (newer ∷ filing ∷ rest)) ticker_idle) in
      let r3 = next r2 (
        Step.tick_ends b cik_map now' (ok (newer ∷ filing ∷ rest)) newer.guid w refl
          (poll_sec_feed-new cik_map now' p.last_seen newer (filing ∷ rest) p.world new)) in
      let r4 = next r3 (
        Step.first_ends c cik_map now (ok (filing ∷ rest)) filing.guid w' refl
          (poll_sec_feed-new cik_map now newer.guid filing rest w new')) in
      (d, r4, refl, refl)

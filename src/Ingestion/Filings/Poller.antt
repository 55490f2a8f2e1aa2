-- ===== src/Ingestion/Filings/Poller.antt =====
-- internal/ingestion/sec_filings.go, `RunSECFilingPoller`: the first poll runs in a goroutine of its own,
-- beside the loop that polls at every tick; they share `lastSeenGUID`. A poll fetches the feed, and later
-- collects and sends; a poll that panics has no step.
pub mod Overlap
use signalstream.Common.{ℕ, ◌≡◌, List, [], Result, Text, some}
use signalstream.Platform.{World}
use signalstream.Sec.{CikMap}
use signalstream.Ingestion.News.{Send}
use signalstream.Ingestion.Filings.{Clock, FeedItem, poll_sec_feed}

pub data Phase : Type 0 where
  idle : Phase
  -- between the answer of the feed and the loop over its items, with the map and the time of these
  fetched : CikMap → Clock → Result (List FeedItem) → Phase
  returned : Phase

pub record Poller (E : Type 0) : Type 0 where
  pub last_seen : Text
  pub first : Phase
  pub ticker : Phase
  pub world : World E

abbrev pub new_poller : {E : Type 0} → World E → Poller E
new_poller w = record { last_seen = []; first = idle; ticker = idle; world = w }

-- One step of one of the two goroutines.
pub data Step {E : Type 0} (send : Send E) : Poller E → Poller E → Type 0 where
  first_fetches :
      (p : Poller E) (cik_map : CikMap) (now : Clock) (reply : Result (List FeedItem))
      → p.first ≡ idle
      → Step send p (record p { first = fetched cik_map now reply })
  first_ends :
      (p : Poller E) (cik_map : CikMap) (now : Clock) (reply : Result (List FeedItem)) (last : Text)
      (w : World E)
      → p.first ≡ fetched cik_map now reply
      → poll_sec_feed send cik_map now reply p.last_seen p.world ≡ some (last, w)
      → Step send p (record p { last_seen = last; first = returned; world = w })
  ticks :
      (p : Poller E) (cik_map : CikMap) (now : Clock) (reply : Result (List FeedItem))
      → p.ticker ≡ idle
      → Step send p (record p { ticker = fetched cik_map now reply })
  tick_ends :
      (p : Poller E) (cik_map : CikMap) (now : Clock) (reply : Result (List FeedItem)) (last : Text)
      (w : World E)
      → p.ticker ≡ fetched cik_map now reply
      → poll_sec_feed send cik_map now reply p.last_seen p.world ≡ some (last, w)
      → Step send p (record p { last_seen = last; ticker = idle; world = w })
  -- the context is done
  shuts_down : (p : Poller E) → p.ticker ≡ idle → Step send p (record p { ticker = returned })

pub data Reach {E : Type 0} (send : Send E) (p : Poller E) : Poller E → Type 0 where
  here : Reach send p p
  next : {q r : Poller E} → Reach send p q → Step send q r → Reach send p r

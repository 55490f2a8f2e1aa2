-- ===== src/Ingestion/Tests.antt =====
-- A feed of articles, a filing with a CIK in its title, and the theorems at these.
use signalstream.Common.{
  ◌≡◌, ◌≢◌, ◌↔◌, refl, List, [], ◌∷◌, ◌++◌, none, ok, Text, codes, arith, itoa_ℤ, itoa, digits_from,
}
use signalstream.Common.Int.{pos}
use signalstream.Platform.{NormalizedEvent, World}
use signalstream.Sec.{CikEntry, CikMap, get_cik_map, fill, insert}
use signalstream.Ingestion.News.{Clock, NewsItem, exhausted}
use signalstream.Common.{true, some, plain, reverse, Option, text_eq}
use signalstream.Ingestion.News.Poller.{
  Round, growing, run_news_api_poller, run_news_api_poller-sends_once,
}
use signalstream.Ingestion.Filings.Poller.{Poller, new_poller, Reach}
use signalstream.Ingestion.Filings.Poller.Overlap.{filing_events, polls_may_overlap}
use signalstream.Ingestion.News.Once.{open_channel, send_in_order, in_time_order}
use signalstream.Ingestion.Filings.{FeedItem, lookup_tickers, collect_filings, poll_sec_feed}
use signalstream.Ingestion.Filings.Tickers.{lookup_tickers_padded}
use signalstream.Ingestion.Filings.Undated.{WillPanic, poll_sec_feed-panics}
use signalstream.Samples.{world}

-- The environment holds what was sent.
abbrev log_world : World (List Text)
log_world = record { env = []; counters = world.counters }

abbrev logging_send : NormalizedEvent → World (List Text) → World (List Text)
logging_send event w = record w { env = w.env ++ event.id ∷ [] }

abbrev article : Text → NewsItem
article id = record { id = id; tickers = []; title = []; article_url = []; published_utc = 0 }

abbrev a : NewsItem
a = article (codes "a")

abbrev b : NewsItem
b = article (codes "b")

abbrev c : NewsItem
c = article (codes "c")

b-≢-a : codes "b" ≢ codes "a"
b-≢-a e = ground arith

c-≢-a : codes "c" ≢ codes "a"
c-≢-a e = ground arith

c-≢-b : codes "c" ≢ codes "b"
c-≢-b e = ground arith

abbrev batches : List (Clock × List NewsItem)
batches = ((λ n. 1), b ∷ []) ∷ ((λ n. 2), c ∷ []) ∷ []

abbrev stop : Round
stop = record { limit = some (plain (codes "context canceled")); now = λ n. 3; items = exhausted }

b-≢-nil : codes "b" ≢ []
b-≢-nil e = ground arith

run_news_api_poller-sends_once_example :
    run_news_api_poller
      (open_channel logging_send)
      (growing logging_send batches exhausted ++ stop ∷ [])
      log_world
    ≡ some (true, send_in_order logging_send (in_time_order logging_send batches) log_world)
run_news_api_poller-sends_once_example =
    run_news_api_poller-sends_once logging_send batches stop (plain (codes "context canceled")) []
      log_world ((b-≢-nil, tt), ((c-≢-b, tt), tt)) refl

abbrev entries : List CikEntry
entries = record { cik = pos 1234; ticker = codes "ACME"; title = [] } ∷ []

abbrev cik_map : CikMap
cik_map = (codes "1234", codes "ACME") ∷ []

entries_map : get_cik_map (ok entries) ≡ cik_map
unfolding get_cik_map fill insert itoa_ℤ itoa digits_from
entries_map = refl

lookup_tickers_padded_example :
    lookup_tickers (codes "8-K (0001234) ") (get_cik_map (ok entries)) ≡ []
lookup_tickers_padded_example =
    lookup_tickers_padded (codes "8-K ") (codes "0001234") (codes " ") (ok entries) (ground arith)
      (ground arith) refl

abbrev undated : List FeedItem
undated = record { guid = codes "f1"; title = []; link = []; published_parsed = none } ∷ []

abbrev filing : Text → FeedItem
filing guid = record { guid = guid; title = []; link = []; published_parsed = some 1 }

-- Main has closed the channel.
abbrev closed_send : NormalizedEvent → World (List Text) → Option (World (List Text))
closed_send event w = none

poll_sec_feed-panics_example :
    (poll_sec_feed closed_send [] (λ n. 3) (ok (filing (codes "f1") ∷ [])) (codes "f0") log_world
      ≡ none)
    ↔ WillPanic closed_send [] (λ n. 3) (ok (filing (codes "f1") ∷ [])) (codes "f0") log_world
poll_sec_feed-panics_example =
    poll_sec_feed-panics closed_send [] (λ n. 3) (ok (filing (codes "f1") ∷ [])) (codes "f0")
      log_world

undated_panics : poll_sec_feed closed_send [] (λ n. 3) (ok undated) (codes "f0") log_world ≡ none
unfolding poll_sec_feed collect_filings text_eq
undated_panics = refl

abbrev start : Poller (List Text)
start = new_poller log_world

polls_may_overlap_example :
    (q : Poller (List Text)) × Reach (open_channel logging_send) start q
    × (q.last_seen ≡ codes "a")
    × (q.world
        ≡ send_in_order logging_send
            (reverse (filing_events [] (λ n. 3) (filing (codes "a") ∷ [])))
            (send_in_order logging_send
              (reverse (filing_events [] (λ n. 4) (filing (codes "b") ∷ filing (codes "a") ∷ [])))
              log_world))
polls_may_overlap_example =
    polls_may_overlap logging_send start [] (λ n. 3) (λ n. 4) (filing (codes "b"))
      (filing (codes "a")) [] refl refl
      (((λ e. ground arith), 1, refl), (((λ e. ground arith), 1, refl), tt))
      (((λ e. ground arith), 1, refl), tt)

-- ===== src/Ingestion/Filings.antt =====
-- internal/ingestion/sec_filings.go: one poll of the EDGAR feed, and the ticker of a filing. The feed
-- parser and the send on the channel are parameters; `none` as a state is a panic, which a send on a
-- closed channel is.
pub mod Tickers
pub mod Undated
pub mod Poller
use signalstream.Common.{
  ℕ, Bool, List, [], ◌∷◌, Option, none, some, Result, ok, err, Text, codes, text_eq, ◌==◌,
  if◌then◌else◌,
}
use signalstream.Platform.{NormalizedEvent, World, count_error}
use signalstream.Sec.{CikMap, ticker_of}
use signalstream.Ingestion.News.{Send, send_backwards}

-- `gofeed.Item`; an entry without a readable date has a nil `PublishedParsed`.
pub record FeedItem : Type 0 where
  pub guid : Text
  pub title : Text
  pub link : Text
  pub published_parsed : Option ℕ

-- What `time.Now()` answers in a poll, for each entry that the poll comes to.
abbrev pub Clock : Type 0
Clock = FeedItem → ℕ

-- The bytes up to the next `)`, if there is one.
unfoldable pub until_close : Text → Option Text
until_close [] = none
until_close (c ∷ t) =
    let rest = until_close t in
    if c == b')' then some [] else elim rest [ none ↦ none | some g ↦ some (c ∷ g) ]

-- The first submatch of the regular expression `\(([^)]+)\)`: the leftmost `(` that is followed by at
-- least one byte other than `)` and then by `)`.
unfoldable pub first_group : Text → Option Text
first_group [] = none
first_group (c ∷ t) =
    let later = first_group t in
    if c == b'('
    then elim (until_close t) [
      | none ↦ later
      | some g ↦ elim g [ [] ↦ later | d ∷ ds ↦ some (d ∷ ds) ]
    ]
    else later

unfoldable pub lookup_tickers : Text → CikMap → List Text
lookup_tickers title cik_map = elim (first_group title) [
  | none ↦ []
  | some cik ↦ elim (ticker_of cik_map cik) [ none ↦ [] | some ticker ↦ ticker ∷ [] ]
]

unfoldable pub filing_event : CikMap → Clock → FeedItem → ℕ → NormalizedEvent
filing_event cik_map now filing published = record {
  id = filing.guid;
  source = codes "SEC EDGAR";
  tickers = lookup_tickers filing.title cik_map;
  title = filing.title;
  content_url = filing.link;
  raw_text = [];
  published_at = published;
  ingested_at = now filing;
}

-- The loop over `feed.Items`; `*item.PublishedParsed` panics on nil.
unfoldable pub collect_filings :
    CikMap → Clock → Text → List FeedItem → Option (List NormalizedEvent)
collect_filings cik_map now last_seen [] = some []
collect_filings cik_map now last_seen (filing ∷ rest) =
    let later = collect_filings cik_map now last_seen rest in
    if text_eq filing.guid last_seen then some [] else elim filing.published_parsed [
      | none ↦ none
      | some published ↦ elim later [
        | none ↦ none
        | some events ↦ some (filing_event cik_map now filing published ∷ events)
      ]
    ]

module _ {E : Type 0} (send : Send E) where
  unfoldable pub poll_sec_feed :
      CikMap → Clock → Result (List FeedItem) → Text → World E → Option (Text × World E)
  poll_sec_feed cik_map now reply last_seen w = elim reply [
    | err e ↦ some (last_seen, count_error w)
    | ok items ↦ elim (collect_filings cik_map now last_seen items) [
      | none ↦ none
      | some events ↦ elim events [
        | [] ↦ some (last_seen, w)
        | first ∷ rest ↦ elim (send_backwards send (first ∷ rest) w) [
          | none ↦ none
          | some w' ↦ some (first.id, w')
        ]
      ]
    ]
  ]

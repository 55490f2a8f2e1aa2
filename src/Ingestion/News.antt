-- ===== src/Ingestion/News.antt =====
-- internal/ingestion/news_api.go, `pollNews`: one poll of the news API. The iterator over the pages of
-- the API is a parameter, as the items that it yields and how it ends; sending on the channel is the
-- parameter `send`. `none` as a state is a panic, which a send on a closed channel is.
pub mod Once
pub mod Poller
use signalstream.Common.{
  ℕ, Bool, Option, none, some, List, [], ◌∷◌, ◌++◌, Result, ok, err, Err, plain, Text, codes,
  text_eq, if◌then◌else◌,
}
use signalstream.Platform.{NormalizedEvent, World, count_error, count_ingested}

pub record NewsItem : Type 0 where
  pub id : Text
  pub tickers : List Text
  pub title : Text
  pub article_url : Text
  pub published_utc : ℕ

-- `iter.Next`, `iter.Item` and `iter.Err`
pub data Items : Type 0 where
  exhausted : Items
  failed : Err → Items
  item : NewsItem → Items → Items

-- What `time.Now()` answers in a poll, for each item that the poll comes to.
abbrev pub Clock : Type 0
Clock = NewsItem → ℕ

-- A send on the channel, which panics if main has closed it.
abbrev pub Send : Type 0 → Type 0
Send E = NormalizedEvent → World E → Option (World E)

unfoldable pub news_event : Clock → NewsItem → NormalizedEvent
news_event now news = record {
  id = news.id;
  source = codes "Polygon.io";
  tickers = news.tickers;
  title = news.title;
  content_url = news.article_url;
  raw_text = [];
  published_at = news.published_utc;
  ingested_at = now news;
}

-- The loop over the iterator: the events up to the last seen one, or the error of the iterator.
unfoldable pub collect : Clock → Text → Items → Result (List NormalizedEvent)
collect now last_seen exhausted = ok []
collect now last_seen (failed e) = err e
collect now last_seen (item news rest) =
    let later = collect now last_seen rest in
    if text_eq news.id last_seen
    then ok []
    else elim later [ err e ↦ err e | ok events ↦ ok (news_event now news ∷ events) ]

module _ {E : Type 0} (send : Send E) where
  -- The loop that sends `newArticles` from its end to its start.
  unfoldable pub send_backwards : List NormalizedEvent → World E → Option (World E)
  send_backwards [] w = some w
  send_backwards (event ∷ events) w = elim (send_backwards events w) [
    | none ↦ none
    | some w₁ ↦ elim (send event w₁) [ none ↦ none | some w₂ ↦ some (count_ingested w₂) ]
  ]

  -- `lastSeenID` and the world after a poll.
  unfoldable pub poll_news : Clock → Items → Text → World E → Option (Text × World E)
  poll_news now items last_seen w = elim (collect now last_seen items) [
    | err e ↦ some (last_seen, count_error w)
    | ok events ↦ elim events [
      | [] ↦ some (last_seen, w)
      | first ∷ rest ↦ elim (send_backwards (first ∷ rest) w) [
        | none ↦ none
        | some w' ↦ some (first.id, w')
      ]
    ]
  ]

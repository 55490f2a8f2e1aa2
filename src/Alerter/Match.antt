-- ===== src/Alerter/Match.antt =====
-- internal/alerter/service.go: the filters that need no vector search, and the choice of the event's
-- own point among the search results.
pub mod Laws
use signalstream.Common.{
  ℕ, Bool, true, false, not, ◌&&◌, List, [], ◌∷◌, Text, text_eq, is_empty, if◌then◌else◌,
}
use signalstream.Database.{Strategy, Float32, Float64}
use signalstream.Platform.{NormalizedEvent}

-- The conversion of a float32 to float64, the converse, and `>=` on float64; bit patterns.
pub record FloatOps : Type 0 where
  pub widen : Float32 → Float64
  pub narrow : Float64 → Float32
  pub at_least : Float64 → Float64 → Bool

pub record ScoredResult : Type 0 where
  pub point_id : Text
  pub score : Float32

-- The loop over `strategy.Source`, and the inner loop over `strategy.Tickers`.
unfoldable pub found_in : Text → List Text → Bool
found_in a [] = false
found_in a (x ∷ xs) = if text_eq a x then true else found_in a xs

-- The outer loop over `event.Tickers`.
unfoldable pub shares_ticker : List Text → List Text → Bool
shares_ticker [] strategy_tickers = false
shares_ticker (t ∷ ts) strategy_tickers =
    if found_in t strategy_tickers then true else shares_ticker ts strategy_tickers

unfoldable pub matches_simple_filters : NormalizedEvent → Strategy → Bool
matches_simple_filters event strategy =
    if not (is_empty strategy.source) && not (found_in event.source strategy.source)
    then false
    else if is_empty strategy.tickers
    then true
    else if is_empty event.tickers
    then false
    else shares_ticker event.tickers strategy.tickers

-- The score and whether a match was found; the score is 0 if there is none.
unfoldable pub find_event_match : FloatOps → Text → List ScoredResult → Float64 → Float32 × Bool
find_event_match ops event_uuid [] threshold = (0, false)
find_event_match ops event_uuid (r ∷ results) threshold =
    if text_eq r.point_id event_uuid && ops.at_least (ops.widen r.score) threshold
    then (r.score, true)
    else find_event_match ops event_uuid results threshold

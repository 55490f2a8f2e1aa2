-- ===== src/Sec.antt =====
-- internal/sec/cik_map.go: the map from CIK numbers to tickers. The download is a parameter.
pub mod Digits
use signalstream.Common.{
  ℕ, List, [], ◌∷◌, Option, none, some, Result, ok, err, Text, text_eq, itoa_ℤ, if◌then◌else◌,
}
use signalstream.Common.Int.{ℤ}

pub record CikEntry : Type 0 where
  pub cik : ℤ
  pub ticker : Text
  pub title : Text

-- `map[string]string`
abbrev pub CikMap : Type 0
CikMap = List (Text × Text)

-- `m.data[k] = v`
unfoldable pub insert : Text → Text → CikMap → CikMap
insert k v [] = (k, v) ∷ []
insert k v ((j, u) ∷ m) = if text_eq j k then (j, v) ∷ m else (j, u) ∷ insert k v m

-- The loop over the decoded entries; `range` over a map may yield them in any order.
unfoldable pub fill : CikMap → List CikEntry → CikMap
fill m [] = m
fill m (entry ∷ rest) = fill (insert (itoa_ℤ entry.cik) entry.ticker m) rest

-- `GetCIKMap`: a download that fails leaves the map empty.
unfoldable pub get_cik_map : Result (List CikEntry) → CikMap
get_cik_map (err e) = []
get_cik_map (ok entries) = fill [] entries

-- `Ticker`
unfoldable pub ticker_of : CikMap → Text → Option Text
ticker_of [] cik = none
ticker_of ((j, v) ∷ m) cik = if text_eq j cik then some v else ticker_of m cik

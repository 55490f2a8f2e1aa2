-- ===== src/Ingestion/Filings/Tickers.antt =====
-- internal/ingestion/sec_filings.go with internal/sec/cik_map.go: the ticker that a title leads to.
use signalstream.Common.{◌≡◌, ◌≢◌, refl, List, [], ◌∷◌, ◌++◌, some, Result, Text, All, arith}
use signalstream.Sec.{CikMap, CikEntry, get_cik_map, ticker_of}
use signalstream.Sec.Digits.{ZeroPadded, ticker_of-ZeroPadded}
use signalstream.Ingestion.Filings.{until_close, first_group, lookup_tickers}

until_close-append :
    (g rest : Text) → All (λ c. c ≢ b')') g → until_close (g ++ b')' ∷ rest) ≡ some g
unfolding until_close
until_close-append [] rest h = refl
until_close-append (c ∷ g) rest h = ground (arith, h.0, until_close-append g rest h.1)

-- A title with one pair of parentheses in front of any other, around at least one byte, yields what
-- stands between these.
pub first_group-append :
    (pre g rest : Text)
    → All (λ c. c ≢ b'(') pre
    → All (λ c. c ≢ b')') g
    → g ≢ []
    → first_group (pre ++ b'(' ∷ (g ++ b')' ∷ rest)) ≡ some g
unfolding first_group
first_group-append [] [] rest hp hg ne = absurd (ne refl)
first_group-append [] (c ∷ g) rest hp hg ne = rw (until_close-append (c ∷ g) rest hg) refl
first_group-append (p ∷ pre) g rest hp hg ne =
    ground (arith, hp.0, first_group-append pre g rest hp.1 hg ne)

-- A filing is given the ticker that the map has for the text between the first parentheses of its
-- title, if that text is not empty and the map has it.
pub lookup_tickers-group :
    (pre g rest : Text) (cik_map : CikMap) (ticker : Text)
    → All (λ c. c ≢ b'(') pre
    → All (λ c. c ≢ b')') g
    → g ≢ []
    → ticker_of cik_map g ≡ some ticker
    → lookup_tickers (pre ++ b'(' ∷ (g ++ b')' ∷ rest)) cik_map ≡ ticker ∷ []
unfolding lookup_tickers
lookup_tickers-group pre g rest cik_map ticker hp hg ne e =
    ground (arith, first_group-append pre g rest hp hg ne)

-- A filing whose first parentheses hold a number that is padded with zeros is given no ticker,
-- whatever entries were downloaded.
pub lookup_tickers_padded :
    (pre g rest : Text) (reply : Result (List CikEntry))
    → All (λ c. c ≢ b'(') pre
    → All (λ c. c ≢ b')') g
    → ZeroPadded g
    → lookup_tickers (pre ++ b'(' ∷ (g ++ b')' ∷ rest)) (get_cik_map reply) ≡ []
unfolding lookup_tickers
lookup_tickers_padded pre [] rest reply hp hg z = absurd z
lookup_tickers_padded pre (c ∷ g) rest reply hp hg z = ground (
  arith,
  first_group-append pre (c ∷ g) rest hp hg (λ e. ground arith),
  ticker_of-ZeroPadded reply (c ∷ g) z,
)

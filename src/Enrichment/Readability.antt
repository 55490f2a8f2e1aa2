-- ===== src/Enrichment/Readability.antt =====
-- internal/enrichment/service.go, `ReadabilityFetcher`. `readability.FromURL` is a parameter.
use signalstream.Common.{ℕ, Result, ok, err, Text}
use signalstream.Platform.{Action}
use signalstream.Enrichment.{Fetcher}

-- `readability.Article`, as far as the program reads it.
pub record Article : Type 0 where
  pub text_content : Text

-- `Fetch`
unfoldable pub fetch : {E : Type 0} → (Text → ℕ → Action E (Result Article)) → Fetcher E
fetch from_url url timeout w =
    let (article, w') = from_url url timeout w in
    elim article [ err e ↦ (err e, w') | ok a ↦ (ok a.text_content, w') ]

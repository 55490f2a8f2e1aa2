-- ===== src/Platform.antt =====
-- internal/platform/event.go, and the state of the process: the outside world `E` (network,
-- database, clock) with the global counters of internal/metrics. An operation is a function from
-- such a state to a result and the next state.
use signalstream.Common.{ℕ, List, Text}
use signalstream.Metrics.{Counters, add_one}

-- A time is a number of nanoseconds.
pub record NormalizedEvent : Type 0 where
  pub id : Text
  pub source : Text
  pub tickers : List Text
  pub title : Text
  pub content_url : Text
  pub raw_text : Text
  pub published_at : ℕ
  pub ingested_at : ℕ

pub record World (E : Type 0) : Type 0 where
  pub env : E
  pub counters : Counters

abbrev pub Action : Type 0 → Type 0 → Type 0
Action E A = World E → A × World E

module _ {E : Type 0} where
  -- `metrics.Global.ErrorsTotal.Add(1)`, and so for the other counters
  abbrev pub count_error : World E → World E
  count_error w = record w {
    counters = record (w.counters) { errors_total = add_one w.counters.errors_total };
  }

  abbrev pub count_retry : World E → World E
  count_retry w = record w {
    counters = record (w.counters) { retry_attempts = add_one w.counters.retry_attempts };
  }

  abbrev pub count_alert : World E → World E
  count_alert w = record w {
    counters = record (w.counters) { alerts_triggered = add_one w.counters.alerts_triggered };
  }

  abbrev pub count_enriched : World E → World E
  count_enriched w = record w {
    counters = record (w.counters) { events_enriched = add_one w.counters.events_enriched };
  }

  abbrev pub count_ingested : World E → World E
  count_ingested w = record w {
    counters = record (w.counters) { events_ingested = add_one w.counters.events_ingested };
  }

  abbrev pub count_processed : World E → World E
  count_processed w = record w {
    counters = record (w.counters) { events_processed = add_one w.counters.events_processed };
  }

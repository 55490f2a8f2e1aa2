-- ===== src/Pipeline.antt =====
-- cmd/signalstream/main.go: what a worker does with an event, and the channel between the producers
-- and the workers.
pub mod Channel
pub mod Shutdown
pub mod Drain
pub mod Startup
pub mod Alerts
pub mod Consistent
mod Tests
use signalstream.Common.{none, some, List, [], ◌∷◌}
use signalstream.Platform.{NormalizedEvent, World, count_processed}
use signalstream.Enrichment.{process_event}
use signalstream.Enrichment as Enrichment
use signalstream.Alerter.Service.{check_event_against_strategies}
use signalstream.Alerter.Service as Alerting

-- `with_timeout` is the context that `context.WithTimeout(ctx, 2*time.Minute)` derives.
module _ {C E F : Type 0} (enrich : Enrichment.Service C E F) (alert : Alerting.Service C E)
    (with_timeout : C → C) (ctx : C) where
  -- One round of the loop of `eventWorker`.
  unfoldable pub handle_event : NormalizedEvent → World E → World E
  handle_event event w =
      let process_ctx = with_timeout ctx in
      let (failure, w') = process_event enrich process_ctx event w in
      elim failure [
        | some e ↦ w'
        | none ↦ count_processed (check_event_against_strategies alert process_ctx event w')
      ]

  -- The loop of a worker over the events that it receives.
  unfoldable pub handle_events : List NormalizedEvent → World E → World E
  handle_events [] w = w
  handle_events (event ∷ events) w = handle_events events (handle_event event w)

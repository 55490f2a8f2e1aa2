-- ===== src/Enrichment/Tests.antt =====
-- An article that is fetched, embedded and stored.
use signalstream.Common.{◌≡◌, refl, none}
use signalstream.Platform.{count_enriched}
use signalstream.Retry.{do_retry, attempts, rounds, default_config}
use signalstream.Enrichment.{process_event, store_text, upsert_point, try_upsert}
use signalstream.Enrichment.Stored.{Processes, process_event-Processes}
use signalstream.Samples.{enriching, event, world}

stores : process_event enriching tt event world ≡ (none, record (count_enriched world) { env = 1 })
unfolding process_event store_text upsert_point try_upsert do_retry attempts rounds default_config
stores = refl

process_event-Processes_example :
    let (failure, w') = process_event enriching tt event world in
    Processes enriching tt event world failure w'
process_event-Processes_example = process_event-Processes enriching tt event world

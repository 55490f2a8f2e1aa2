-- ===== src/Lib.antt =====
-- SignalStream: a pipeline that polls market news and SEC filings, stores each article with an
-- embedding of its text in a vector database, checks each event against the strategies of the users,
-- and alerts the users whose strategies match.
--
-- The parts and how they interact. Two producers (internal/ingestion) poll their sources and send
-- events on a buffered channel; one of them looks up tickers in a map that internal/sec downloads.
-- Four workers (cmd/signalstream/main.go) take events off the channel; a worker calls
-- `ProcessEvent` (internal/enrichment) and then `CheckEventAgainstStrategies` (internal/alerter),
-- which notifies (internal/notification), and a notifier stores the alert and broadcasts it to the
-- sessions of the user (internal/sse). The calls of OpenAI and Qdrant are retried (internal/retry);
-- everything counts in internal/metrics.
--
-- How it is modelled. A string is a list of bytes (Common/Bytes), an error a value of `Err`
-- (Common/Errors), a Go pair of a value and an error a pair or a `Result`. A stateful operation is a
-- function on `World E` (Platform): the counters, and an environment `E` of which nothing is known.
-- Where the code can panic, the next state is an `Option`; a send on a closed channel panics. What the
-- code calls outside the repository is a parameter: the clients of OpenAI and Qdrant, the article
-- fetcher, base64 and AES-GCM, JSON, the clock, the random source, the context. Floating-point numbers
-- are parameters: the abstract type of `Floats` for delays, with the laws of `FloatLaws` for the delays'
-- bounds, and numerals with the operations of `FloatOps` for scores. Logging is left out.
--
-- The files:
--   Common      numbers, lists, bytes, decimal printing and parsing, errors; `itoa` prints with fuel
--               n + 1, and each digit divides n by ten
--   Metrics     internal/metrics/metrics.go; counters wrap around at 2^64
--   Platform    internal/platform/event.go, and the state of the process
--   Database    internal/database: the rows; Statements the statements on one row of a user, Users
--               and Keys users.go and apikeys.go, Strategies and Alerts the insertions and lists of
--               strategies.go and alerts.go, Schema `Migrate` of database.go with the migrations,
--               Postgres what the statements take from the database, Connect `Connect`, Consistent
--               what the keys of the tables promise, where Interleaved takes the statements of all
--               goroutines in any order; a statement fails where the script `faults` says
--               so, and a NULL `strategy_id` is the zero UUID that the program reads for it
--   Api         internal/api: the check of the token (Guard), registration and login (Accounts),
--               the API keys (Keys), the handlers that change one row of a user (Handlers), those
--               that create a strategy or show what belongs to the user (Listings), the stream of
--               alerts over the broker (Streaming), and the routes with all of them (Server);
--               Handlers/Race interleaves the two statements of two toggles
--   Retry       internal/retry/retry.go, `Do`: `do_retry`, by recursion on the rounds that are left;
--               the start is `rounds MaxRetries`, the number of values for which the condition
--               of the loop holds
--   Embedding   internal/embedding/client.go, `Embed`: `embed`
--   Sse         internal/sse/broker.go: the operations as critical sections and channel operations;
--               Sse/Race the steps of goroutines, one send of a broadcast at a time; Sse/Sessions
--               what the broker promises to the sessions, and Sse/Stream `ServeHTTP`
--   Notification  internal/notification: `log_send`, `database_send`, `multi_send`; Delivery the
--               notifier of `main` over the database and the broker
--   Alerter     internal/alerter/service.go: Match the local filters, Qdrant the filter of a search,
--               Searcher the search, with what Qdrant documents of its answers (Searcher/Nearest),
--               Service the evaluation
--   Enrichment  internal/enrichment/service.go, `ProcessEvent`: `process_event`
--   Auth        internal/auth/encryption.go: `encrypt`, `decrypt`; Tokens internal/auth/jwt.go,
--               Passwords internal/auth/password.go
--   Config      internal/config/config.go, `Validate` and `Get`: `validate`, `get`
--   Sec         internal/sec/cik_map.go
--   Ingestion   News internal/ingestion/news_api.go, Filings internal/ingestion/sec_filings.go; the
--               polls, and in News/Poller and Filings/Poller the loops around them
--   Pipeline    cmd/signalstream/main.go: a worker's round, the events channel, the shutdown, the
--               end of the workers (Drain), what `main` sets up (Startup), its alerter over the
--               database and the broker (Alerts), and the database over the life of the process
--               (Consistent)
--   Inspector   tools/qdrant-inspector/main.go
--   Samples     concrete parameters at which the theorems are tried out
--
-- The HTTP server calls the API's handlers on the same database and broker.
--
-- Not modelled: the parsing of the environment, the settings of log/slog, the signals of the process,
-- the frontend, and the redirects (301) of `http.ServeMux` for a path that is not in its clean form, which
-- the routes of Server answer with 404.
pub mod Common
pub mod Metrics
pub mod Platform
pub mod Database
pub mod Retry
pub mod Embedding
pub mod Sse
pub mod Notification
pub mod Alerter
pub mod Enrichment
pub mod Auth
pub mod Config
pub mod Sec
pub mod Ingestion
pub mod Samples
pub mod Inspector
pub mod Pipeline
pub mod Api

-- ===== src/Api/Streaming.antt =====
-- internal/api/alerts.go, `handleAlertStream`, over the broker. What happens meanwhile is a list, as it is
-- for `ServeHTTP`; without a broker the process has panicked, and nothing is answered. The answer holds what
-- the connection has been sent so far.
pub mod Own
mod Tests
use signalstream.Common.{
  Bool, true, false, List, Option, none, some, Result, Text, codes, if◌then◌else◌,
}
use signalstream.Platform.{World}
use signalstream.Database.{Uuid}
use signalstream.Database.Statements.{Db}
use signalstream.Sse.{Broker}
use signalstream.Sse.Stream.{Happening, serve_http}
use signalstream.Api.{text_body, no_body, Response, Handler, error_response}

module _ {D : Type 0} (marshal : D → Result Text) (uuid_string : Uuid → Text) where
  unfoldable pub handle_alert_stream : Bool → List (Happening D) → Handler (Option Broker)
  handle_alert_stream flusher happenings r none = (record { status = 0; body = no_body }, none)
  handle_alert_stream flusher happenings r (some b) = elim r.claims [
    | none ↦ (error_response 401 (codes "unauthorized"), some b)
    | some claims ↦ elim (serve_http marshal (uuid_string claims.user_id) flusher happenings b) [
      | none ↦ (record { status = 0; body = no_body }, none)
      | some (sent, b') ↦
          (record { status = if flusher then 200 else 500; body = text_body sent.text }, some b')
    ]
  ]

-- Where the environment of the process has the broker.
pub record BrokerOf (E : Type 0) : Type 0 where
  pub get : E → Option Broker
  pub put : Option Broker → E → E

module _ {D E : Type 0} (marshal : D → Result Text) (uuid_string : Uuid → Text)
    (broker : BrokerOf E) where
  -- The handler on the state of the server.
  unfoldable pub stream_handler : Bool → List (Happening D) → Handler (World E × Db)
  stream_handler flusher happenings r (w, db) =
      let (response, b) =
        handle_alert_stream marshal uuid_string flusher happenings r (broker.get w.env) in
      (response, (record w { env = broker.put b w.env }, db))

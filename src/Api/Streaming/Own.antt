-- ===== src/Api/Streaming/Own.antt =====
-- internal/api/{middleware,alerts}.go with internal/sse/broker.go: whose alerts a stream shows.
use signalstream.Common.{◌≡◌, List, ◌++◌, Option, some, Result, Text}
use signalstream.Database.{Uuid}
use signalstream.Sse.{Broker, subscribe}
use signalstream.Sse.Sessions.Steps.{queue_at}
use signalstream.Sse.Stream.{Happening, connected}
use signalstream.Sse.Stream.Happenings.{frames}
use signalstream.Sse.Stream.InOrder.{sent}
use signalstream.Api.{Claims, text_body, Response}

module _ {D : Type 0} (marshal : D → Result Text) (uuid_string : Uuid → Text)
    (validate_token : Text → Option Broker → Result Claims) where
  -- What a stream for the user of the claims has shown, and what waits in its channel.
  pub record ShowsOwn (claims : Claims) (happenings : List (Happening D)) (b : Broker)
      (answer : Response × Option Broker) : Type 0 where
    pub text : Text
    pub rest : List Text
    pub after : Broker
    pub answers : answer ≡ (record { status = 200; body = text_body text }, some after)
    pub unread : queue_at after.chans (subscribe (uuid_string claims.user_id) b).0 ≡ some rest
    pub in_order :
        text ++ frames rest
        ≡ connected ++ frames (sent marshal (uuid_string claims.user_id) happenings)

-- ===== src/Sse/Stream/InOrder.antt =====
-- internal/sse/broker.go, `ServeHTTP`: what a connection is sent while others subscribe and broadcast.
use signalstream.Common.{
  ℕ, ◌≡◌, List, [], ◌∷◌, ◌++◌, some, Result, ok, err, Text, text_eq, if◌then◌else◌,
}
use signalstream.Sse.{Broker}
use signalstream.Sse.Sessions.{Op, broadcasts, Sessions}
use signalstream.Sse.Sessions.Steps.{queue_at}
use signalstream.Sse.Stream.Happenings.{frames, ends}
use signalstream.Sse.Stream.{Happening, elsewhere, looks, done, Sent, serve_loop}

module _ {D : Type 0} (marshal : D → Result Text) (u : Text) where
  -- What an operation broadcasts to the user.
  unfoldable pub sent_by : Op D → List Text
  sent_by (broadcasts v datum) = elim (marshal datum) [
    | err e ↦ []
    | ok p ↦ if text_eq v u then p ∷ [] else []
  ]
  sent_by _ = []

  -- What is broadcast to the user before the connection ends.
  abbrev pub sent : List (Happening D) → List Text
  sent [] = []
  sent (done ∷ hs) = []
  sent (looks ∷ hs) = sent hs
  sent (elsewhere o ∷ hs) = sent_by o ++ sent hs

  -- A connection that has been sent the frames of what there was to send, but for the rest that waits.
  pub record Streams (ch : ℕ) (hs : List (Happening D)) (out : Text) (all : List Text) (b : Broker)
      : Type 0 where
    pub result : Sent
    pub after : Broker
    pub rest : List Text
    pub runs : serve_loop marshal u ch hs out b ≡ some (result, after)
    pub unread : queue_at after.chans ch ≡ some rest
    pub in_order : result.text ++ frames rest ≡ out ++ frames all
    pub at_end : result.returned ≡ ends hs

-- ===== src/Sse/Stream.antt =====
-- internal/sse/broker.go, `ServeHTTP`: a connection of a user, from its subscription to its end. What
-- other goroutines do meanwhile, and which case of the `select` is taken, is a list of happenings; the
-- text is what the connection has been sent.
pub mod Happenings
pub mod InOrder
use signalstream.Common.{
  Bool, true, false, List, [], ◌∷◌, ◌++◌, Option, none, some, Result, Text, codes, ℕ, get_elem?,
  if◌then◌else◌,
}
use signalstream.Sse.{
  Broker, subscribe, unsubscribe, on_chan, receive, taken, finished, blocks, payload, frame,
}
use signalstream.Sse.Sessions.{Op, perform}

pub data Happening (D : Type 0) : Type 0 where
  -- an operation of another goroutine
  elsewhere : Op D → Happening D
  -- the session looks at its channel, and goes on waiting if that blocks
  looks : Happening D
  -- the context is done
  done : Happening D

-- What a connection has been sent, and whether the handler has returned.
pub record Sent : Type 0 where
  pub text : Text
  pub returned : Bool

abbrev pub connected : Text
connected = codes "event: connected\ndata: {\"status\":\"connected\"}\n\n"

module _ {D : Type 0} (marshal : D → Result Text) (u : Text) where
  -- The return of the handler, with the deferred `Unsubscribe`.
  unfoldable pub returns : ℕ → Text → Broker → Option (Sent × Broker)
  returns ch out b = elim (unsubscribe u ch b) [
    | none ↦ none
    | some b' ↦ some (record { text = out; returned = true }, b')
  ]

  -- The loop of `ServeHTTP`
  unfoldable pub serve_loop : ℕ → List (Happening D) → Text → Broker → Option (Sent × Broker)
  serve_loop ch [] out b = some (record { text = out; returned = false }, b)
  serve_loop ch (elsewhere o ∷ hs) out b = elim (perform marshal o b) [
    | none ↦ none
    | some b' ↦ serve_loop ch hs out b'
  ]
  serve_loop ch (done ∷ hs) out b = returns ch out b
  serve_loop ch (looks ∷ hs) out b = elim (get_elem? b.chans ch) [
    | none ↦ none
    | some c ↦ elim (receive c) [
      | blocks ↦ serve_loop ch hs out b
      | finished ↦ returns ch out b
      | payload p _ ↦ elim (on_chan taken b.chans ch) [
        | none ↦ none
        | some cs ↦ serve_loop ch hs (out ++ frame p) (record b { chans = cs })
      ]
    ]
  ]

  -- `ServeHTTP`; the flag tells whether the writer is a `Flusher`.
  unfoldable pub serve_http : Bool → List (Happening D) → Broker → Option (Sent × Broker)
  serve_http flusher hs b =
      let (ch, b') = subscribe u b in
      let streamed = serve_loop ch hs connected b' in
      if flusher
      then streamed
      else some (record { text = codes "streaming not supported\n"; returned = true }, b)

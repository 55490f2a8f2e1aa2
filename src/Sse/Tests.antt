-- ===== src/Sse/Tests.antt =====
-- A broker with two users, and the theorems at it.
use signalstream.Sse.Sessions.{
  Op, subscribes, unsubscribes, broadcasts, reads, Sessions, no_sessions, perform_all, perform,
  promise, set, add_payload, next_is,
}
use signalstream.Sse.Stream.{Happening, elsewhere, looks, done}
use signalstream.Sse.Sessions.Steps.{Refines}
use signalstream.Sse.Sessions.Refinement.{broker_keeps_promise}
use signalstream.Common.{
  ◌≡◌, refl, true, false, List, [], ◌∷◌, none, some, Text, codes, Result, ok, text_eq,
}
use signalstream.Sse.{
  Broker, new_broker, subscribe, broadcast, user_clients, contains, add_client, on_chan, offer,
  offer_all,
}
use signalstream.Sse.Invariant.{IsSound, listed, subscribe-IsSound}
use signalstream.Sse.Race.{
  System, start, Reach, here, next, Step, new_broker-IsSound, Reach-IsSound, Panics,
  broadcast_may_panic,
}

abbrev ann : Text
ann = codes "ann"

abbrev encode : Text → Result Text
encode = ok

abbrev one : Broker
one = (subscribe ann new_broker).1

one-IsSound : IsSound one
one-IsSound = (subscribe-IsSound ann new_broker new_broker-IsSound).0

ann-listed : listed one ann 0 ≡ true
unfolding subscribe user_clients add_client contains text_eq
ann-listed = refl

broadcast_twice :
    broadcast encode ann (codes "x") one
    ≡ some (record {
      clients = (ann, 0 ∷ []) ∷ [];
      chans = record { buffer = codes "x" ∷ []; closed = false } ∷ [];
    })
unfolding subscribe user_clients add_client contains text_eq broadcast offer_all on_chan offer
broadcast_twice = refl

Reach-IsSound_example : IsSound one
Reach-IsSound_example = Reach-IsSound (next here (Step.subscribes start ann))

broadcast_may_panic_example :
    (t : System) × Reach (record { broker = one; flights = [] }) t × Panics t
broadcast_may_panic_example =
    broadcast_may_panic (record { broker = one; flights = [] }) ann (codes "x") 0 one-IsSound
      ann-listed

abbrev session : List (Op Text)
session =
    subscribes (codes "ann")
    ∷ broadcasts (codes "ann") (codes "x")
    ∷ broadcasts (codes "bob") (codes "y")
    ∷ reads (codes "ann") 0 (codes "x")
    ∷ unsubscribes (codes "ann") 0
    ∷ []

abbrev ended : Sessions
ended = elim (perform_all (promise ok) session no_sessions) [ none ↦ no_sessions | some s ↦ s ]

broker_keeps_promise_example :
    (b : Broker) × (perform_all (perform ok) session new_broker ≡ some b) × Refines b ended
unfolding perform_all promise set add_payload next_is text_eq
broker_keeps_promise_example = broker_keeps_promise ok session ended refl

abbrev happenings : List (Happening Text)
happenings =
    elsewhere (broadcasts (codes "ann") (codes "x"))
    ∷ looks
    ∷ elsewhere (broadcasts (codes "bob") (codes "y"))
    ∷ elsewhere (broadcasts (codes "ann") (codes "z"))
    ∷ done
    ∷ []

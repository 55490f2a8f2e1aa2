-- ===== src/Sse/Race.antt =====
-- internal/sse/broker.go under concurrency. `Broadcast` holds the lock only while it reads the inner
-- map; it then walks the map and sends with no lock, so other goroutines may run between the moment
-- that it takes a channel from the map and the moment that it sends.
use signalstream.Common.{
  ℕ, ◌≡◌, inl, inr, refl, true, List, [], ◌∷◌, ◌++◌, none, some, Text, get_elem?, subst, length,
  length-append, ◌≤◌, ◌==◌, arith, Option-cases,
}
use signalstream.Sse.{
  Chan, Broker, user_clients, contains, subscribe, unsubscribe, on_chan, offer, taken, buffer_size,
  new_broker,
}
use signalstream.Sse.Channels.{Updated, on_chan-some, offer-closed}
use signalstream.Sse.Invariant.{IsSound, listed, unsubscribe-IsSound, subscribe-IsSound}

-- A broadcast on its way: the user and payload, and the channel that the walk has just yielded.
pub record Flight : Type 0 where
  pub user : Text
  pub content : Text
  pub target : ℕ

pub record System : Type 0 where
  pub broker : Broker
  pub flights : List Flight

-- One step of some goroutine.
pub data Step : System → System → Type 0 where
  subscribes : (s : System) (u : Text) → Step s (record s { broker = (subscribe u s.broker).1 })
  -- only the session that subscribed a channel unsubscribes it, once
  unsubscribes :
      (s : System) (u : Text) (ch : ℕ) (b : Broker)
      → listed s.broker u ch ≡ true
      → unsubscribe u ch s.broker ≡ some b
      → Step s (record s { broker = b })
  -- the walk over the map yields a channel that is in it at that moment
  yields :
      (s : System) (f : Flight)
      → listed s.broker f.user f.target ≡ true
      → Step s (record s { flights = f ∷ s.flights })
  -- a session reads from its channel
  receives :
      (s : System) (ch : ℕ) (cs : List Chan)
      → on_chan taken s.broker.chans ch ≡ some cs
      → Step s (record s { broker = record (s.broker) { chans = cs } })
  -- some goroutine sends what it was about to send
  sends :
      (s : System) (before after : List Flight) (f : Flight) (cs : List Chan)
      → s.flights ≡ before ++ f ∷ after
      → on_chan (offer f.content) s.broker.chans f.target ≡ some cs
      → Step s (record s { broker = record (s.broker) { chans = cs }; flights = before ++ after })

pub data Reach (s : System) : System → Type 0 where
  here : Reach s s
  next : {t v : System} → Reach s t → Step t v → Reach s v

pub exchange-IsSound :
    (b : Broker) (cs : List Chan) (i : ℕ) (c c' : Chan)
    → IsSound b
    → get_elem? b.chans i ≡ some c
    → c'.closed ≡ c.closed
    → length c'.buffer ≤ buffer_size
    → Updated (λ _. c') (λ j. i == j) b.chans cs
    → IsSound (record b { chans = cs })
exchange-IsSound b cs i c c' h e same small at = record {
  tidy = h.tidy;
  distinct = h.distinct;
  open_clients = λ v j l. ground (arith, at j, h.open_clients v j);
  exclusive = h.exclusive;
  bounded = λ j d q. elim (Option-cases (get_elem? b.chans j)) [
    | inl missing ↦ ground (arith, at j)
    | inr (d', e') ↦ ground (arith, at j, h.bounded j d' e')
  ];
}

offer_keeps :
    (p : Text) (c c' : Chan)
    → offer p c ≡ some c'
    → length c.buffer ≤ buffer_size
    → (c'.closed ≡ c.closed) × (length c'.buffer ≤ buffer_size)
unfolding offer
offer_keeps p c c' h le = ground (arith, length-append c.buffer (p ∷ []))

taken_keeps :
    (c c' : Chan)
    → taken c ≡ some c'
    → length c.buffer ≤ buffer_size
    → (c'.closed ≡ c.closed) × (length c'.buffer ≤ buffer_size)
unfolding taken
taken_keeps c c' h le = ground arith

-- Every step of every goroutine, in any order, keeps the invariant of the broker.
pub Step-IsSound : {s t : System} → Step s t → IsSound s.broker → IsSound t.broker
Step-IsSound (subscribes s u) h = (subscribe-IsSound u s.broker h).0
Step-IsSound (unsubscribes s u ch b l e) h =
    let (b', e', sound, _, _) = unsubscribe-IsSound u ch s.broker h l in
    subst IsSound (ground arith) sound
Step-IsSound (yields s f l) h = h
Step-IsSound (receives s ch cs e) h =
    let (c, c', at, q, u) = on_chan-some taken s.broker.chans cs ch e in
    let (same, small) = taken_keeps c c' q (h.bounded ch c at) in
    exchange-IsSound s.broker cs ch c c' h at same small u
Step-IsSound (sends s before after f cs q e) h =
    let (c, c', at, r, u) = on_chan-some (offer f.content) s.broker.chans cs f.target e in
    let (same, small) = offer_keeps f.content c c' r (h.bounded f.target c at) in
    exchange-IsSound s.broker cs f.target c c' h at same small u

pub new_broker-IsSound : IsSound new_broker
unfolding user_clients contains
new_broker-IsSound = record {
  tidy = tt;
  distinct = λ u. tt;
  open_clients = λ u i l. cc;
  exclusive = λ u v i l m. cc;
  bounded = λ i c e. cc;
}

abbrev pub start : System
start = record { broker = new_broker; flights = [] }

-- In every state that the goroutines can reach from a new broker the invariant holds: listed channels
-- are open, belong to one user each, and hold at most 64 payloads.
pub Reach-IsSound : {s : System} → Reach start s → IsSound s.broker
Reach-IsSound here = new_broker-IsSound
Reach-IsSound (next r st) = Step-IsSound st (Reach-IsSound r)

-- A send that some goroutine is about to do would panic.
abbrev pub Panics : System → Type 0
Panics s =
    (before : List Flight) × (f : Flight) × (after : List Flight) × (s.flights
      ≡ before ++ f ∷ after)
    × (on_chan (offer f.content) s.broker.chans f.target ≡ none)

-- From every sound state in which a user has a channel, a broadcast to that user and the end of that
-- session can be ordered so that the broadcast sends on the closed channel and panics.
pub broadcast_may_panic :
    (s : System) (u p : Text) (ch : ℕ)
    → IsSound s.broker
    → listed s.broker u ch ≡ true
    → (t : System) × Reach s t × Panics t
broadcast_may_panic s u p ch h l =
    let f : Flight = record { user = u; content = p; target = ch } in
    let (b, e, sound, closed, _) = unsubscribe-IsSound u ch s.broker h l in
    let mid : System = record s { flights = f ∷ s.flights } in
    let last : System = record { broker = b; flights = f ∷ s.flights } in
    (
      last,
      next (next here (yields s f l)) (unsubscribes mid u ch b l e),
      ([], f, s.flights, refl, offer-closed p b.chans ch closed),
    )

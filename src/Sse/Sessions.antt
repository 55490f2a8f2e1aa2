-- ===== src/Sse/Sessions.antt =====
-- internal/sse/broker.go: what the broker promises to its sessions, and the operations of the broker in
-- sequence. The sessions of a user are told apart by a number; each has the payloads that it is still to
-- read.
pub mod Steps
pub mod Refinement
use signalstream.Common.{
  ℕ, zero, suc, ◌++◌, Bool, true, false, List, [], ◌∷◌, Option, none, some, Result, ok, err, Text,
  text_eq, length, ltb, get_elem?, ◌==◌, if◌then◌else◌,
}
use signalstream.Sse.{
  Chan, Broker, buffer_size, subscribe, unsubscribe, broadcast, on_chan, receive, taken, payload,
}

pub data Op (D : Type 0) : Type 0 where
  subscribes : Text → Op D
  unsubscribes : Text → ℕ → Op D
  broadcasts : Text → D → Op D
  -- the session with this number reads this payload
  reads : Text → ℕ → Text → Op D

pub record Sessions : Type 0 where
  pub made : ℕ
  pub waiting : Text → ℕ → Option (List Text)

abbrev pub no_sessions : Sessions
no_sessions = record { made = 0; waiting = λ _ _. none }

unfoldable pub set : Text → ℕ → Option (List Text) → Sessions → Sessions
set u i q s = record s {
  waiting = λ v j. if text_eq u v then if i == j then q else s.waiting v j else s.waiting v j;
}

-- A queue after one more payload, which is dropped if the queue is full.
unfoldable pub add_payload : Text → Option (List Text) → Option (List Text)
add_payload p none = none
add_payload p (some q) = if ltb (length q) buffer_size then some (q ++ p ∷ []) else some q

-- The next payload of a queue, if it is the given one, and the rest.
unfoldable pub next_is : Text → List Text → Option (List Text)
next_is p [] = none
next_is p (x ∷ q) = if text_eq x p then some q else none

-- A receive that yields this payload.
unfoldable pub read_chan : Text → Chan → Option Chan
read_chan p c = elim (receive c) [ payload x c' ↦ if text_eq x p then some c' else none | _ ↦ none ]

module _ {D : Type 0} (marshal : D → Result Text) where
  unfoldable pub promise : Op D → Sessions → Option Sessions
  promise (subscribes u) s = some (set u s.made (some []) (record s { made = suc s.made }))
  promise (unsubscribes u i) s = elim (s.waiting u i) [
    | none ↦ none
    | some q ↦ some (set u i none s)
  ]
  promise (broadcasts u datum) s = elim (marshal datum) [
    | err e ↦ some s
    | ok p ↦ some (record s {
      waiting = λ v j. if text_eq u v then add_payload p (s.waiting v j) else s.waiting v j;
    })
  ]
  promise (reads u i p) s = elim (s.waiting u i) [
    | none ↦ none
    | some q ↦ elim (next_is p q) [ none ↦ none | some rest ↦ some (set u i (some rest) s) ]
  ]

  unfoldable pub perform : Op D → Broker → Option Broker
  perform (subscribes u) b = some (subscribe u b).1
  perform (unsubscribes u i) b = unsubscribe u i b
  perform (broadcasts u datum) b = broadcast marshal u datum b
  perform (reads u i p) b = elim (on_chan (read_chan p) b.chans i) [
    | none ↦ none
    | some cs ↦ some (record b { chans = cs })
  ]

-- Operations one after the other, as far as each is possible.
unfoldable pub perform_all : {D S : Type 0} → (Op D → S → Option S) → List (Op D) → S → Option S
perform_all step [] s = some s
perform_all step (o ∷ os) s = elim (step o s) [ none ↦ none | some t ↦ perform_all step os t ]

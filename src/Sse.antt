-- ===== src/Sse.antt =====
-- internal/sse/broker.go: clients by user, each with a buffered channel. A channel is named by its
-- place in a heap, so that maps share it with the goroutine that reads it. `none` as a state is a
-- panic. Each function is one critical section or one channel operation of the source.
pub mod Clients
pub mod Channels
pub mod Invariant
pub mod Delivery
pub mod Race
pub mod Sessions
pub mod Stream
mod Tests
use signalstream.Common.{
  ℕ, zero, suc, ◌+◌, Bool, true, false, List, [], ◌∷◌, ◌++◌, Option, none, some, Result, ok, err,
  Text, codes, text_eq, is_empty, length, ltb, ◌==◌, if◌then◌else◌,
}

pub record Chan : Type 0 where
  pub buffer : List Text
  pub closed : Bool

-- The capacity of the channel that `Subscribe` makes.
abbrev pub buffer_size : ℕ
buffer_size = 64

-- `map[string]map[chan []byte]struct{}`
abbrev pub Clients : Type 0
Clients = List (Text × List ℕ)

pub record Broker : Type 0 where
  pub clients : Clients
  pub chans : List Chan

abbrev pub new_broker : Broker
new_broker = record { clients = []; chans = [] }

-- `b.clients[userID]`, where a missing entry reads as an empty set
unfoldable pub user_clients : Text → Clients → List ℕ
user_clients u [] = []
user_clients u ((v, cs) ∷ m) = if text_eq v u then cs else user_clients u m

unfoldable pub contains : ℕ → List ℕ → Bool
contains i [] = false
contains i (j ∷ js) = if i == j then true else contains i js

-- `delete(userClients, ch)`
unfoldable pub erase : ℕ → List ℕ → List ℕ
erase i [] = []
erase i (j ∷ js) = if i == j then erase i js else j ∷ erase i js

-- The critical section of `Subscribe`.
unfoldable pub add_client : Text → ℕ → Clients → Clients
add_client u i [] = (u, i ∷ []) ∷ []
add_client u i ((v, cs) ∷ m) =
    if text_eq v u
    then (v, (if contains i cs then cs else i ∷ cs)) ∷ m
    else (v, cs) ∷ add_client u i m

-- The critical section of `Unsubscribe`.
unfoldable pub remove_client : Text → ℕ → Clients → Clients
remove_client u i [] = []
remove_client u i ((v, cs) ∷ m) =
    if text_eq v u
    then if is_empty (erase i cs) then m else (v, erase i cs) ∷ m
    else (v, cs) ∷ remove_client u i m

-- `Subscribe`: the new channel, and the broker with it.
unfoldable pub subscribe : Text → Broker → ℕ × Broker
subscribe u b =
    let ch = length b.chans in
    (
      ch,
      record {
        clients = add_client u ch b.clients;
        chans = b.chans ++ record { buffer = []; closed = false } ∷ [];
      },
    )

-- An operation at one place of the heap; out of range there is no channel, and it panics.
unfoldable pub on_chan : (Chan → Option Chan) → List Chan → ℕ → Option (List Chan)
on_chan f [] i = none
on_chan f (c ∷ cs) zero = elim (f c) [ none ↦ none | some c' ↦ some (c' ∷ cs) ]
on_chan f (c ∷ cs) (suc i) = elim (on_chan f cs i) [ none ↦ none | some cs' ↦ some (c ∷ cs') ]

-- `close(ch)` panics on a closed channel.
unfoldable pub close_chan : Chan → Option Chan
close_chan c = if c.closed then none else some (record c { closed = true })

-- `select { case ch <- payload: default: }` panics on a closed channel and drops if it is full.
unfoldable pub offer : Text → Chan → Option Chan
offer payload c =
    if c.closed
    then none
    else some (
        if ltb (length c.buffer) buffer_size
        then record c { buffer = c.buffer ++ payload ∷ [] }
        else c)

unfoldable pub unsubscribe : Text → ℕ → Broker → Option Broker
unsubscribe u ch b = elim (on_chan close_chan b.chans ch) [
  | none ↦ none
  | some cs ↦ some (record { clients = remove_client u ch b.clients; chans = cs })
]

-- The loop of `Broadcast` over the channels of the user.
unfoldable pub offer_all : Text → List ℕ → List Chan → Option (List Chan)
offer_all payload [] cs = some cs
offer_all payload (i ∷ is) cs = elim (on_chan (offer payload) cs i) [
  | none ↦ none
  | some cs' ↦ offer_all payload is cs'
]

-- `Broadcast` without interruption; `marshal` is `json.Marshal`.
unfoldable pub broadcast : {D : Type 0} → (D → Result Text) → Text → D → Broker → Option Broker
broadcast marshal u datum b = elim (marshal datum) [
  | err e ↦ some b
  | ok payload ↦ elim (offer_all payload (user_clients u b.clients) b.chans) [
    | none ↦ none
    | some cs ↦ some (record b { chans = cs })
  ]
]

-- `data, ok := <-ch` when it does not block: the next payload, or `none` from a closed channel.
pub data Received : Type 0 where
  blocks : Received
  finished : Received
  payload : Text → Chan → Received

unfoldable pub receive : Chan → Received
receive c = elim c.buffer [
  | [] ↦ if c.closed then finished else blocks
  | p ∷ ps ↦ payload p (record c { buffer = ps })
]

-- The channel behind a receive that yields a payload; such a receive waits otherwise.
unfoldable pub taken : Chan → Option Chan
unfolding receive
taken c = elim (receive c) [ payload p c' ↦ some c' | _ ↦ none ]

-- The bytes that `ServeHTTP` writes for one alert.
unfoldable pub frame : Text → Text
frame p = codes "event: alert\ndata: " ++ (p ++ codes "\n\n")

-- ===== src/Pipeline/Shutdown.antt =====
-- cmd/signalstream/main.go: the end of `main` cancels the context and closes the channel without
-- waiting for the producers, which do not look at the context while they send.
use signalstream.Common.{◌≡◌, refl, true, false, List, ◌∷◌, ◌++◌}
use signalstream.Platform.{NormalizedEvent}
use signalstream.Pipeline.Channel.{Pipe, cancels, closes, Reach, here, next}

-- Some poll has an event to send, and the channel is closed.
pub record Panics (p : Pipe) : Type 0 where
  pub before : List (List NormalizedEvent)
  pub event : NormalizedEvent
  pub rest : List NormalizedEvent
  pub after : List (List NormalizedEvent)
  pub pending : p.polls ≡ before ++ (event ∷ rest) ∷ after
  pub is_closed : p.closed ≡ true

-- From every state in which the channel is open and a poll has an event to send, the shutdown can run
-- so that the next send of that poll is on the closed channel and panics.
pub shutdown_may_panic :
    (p : Pipe) (before after : List (List NormalizedEvent)) (event : NormalizedEvent)
    (rest : List NormalizedEvent)
    → p.polls ≡ before ++ (event ∷ rest) ∷ after
    → p.closed ≡ false
    → (q : Pipe) × Reach p q × Panics q
shutdown_may_panic p before after event rest e o =
    let stopping : Pipe = record p { cancelled = true } in
    (
      record stopping { closed = true },
      next (next here (cancels p)) (closes stopping refl o),
      record {
        before = before;
        event = event;
        rest = rest;
        after = after;
        pending = e;
        is_closed = refl;
      },
    )

-- ===== src/Pipeline/Channel.antt =====
-- cmd/signalstream/main.go: the buffered channel of events, its producers, the workers and the
-- shutdown, as steps of goroutines in any order. A step of a worker takes an event off the channel; a
-- producer's send waits while the channel is full and panics once it is closed.
use signalstream.Common.{
  ℕ, ◌≤◌, ◌<◌, ◌≡◌, refl, subst, ◌∙◌, ap, sym, Bool, true, false, List, [], ◌∷◌, ◌++◌, length,
  length-append, arith,
}
use mathlib.Core.List.Perm
use mathlib.Core.List.{Perm, append_assoc, perm_middle, perm_append_comm}
use signalstream.Platform.{NormalizedEvent}

abbrev pub channel_capacity : ℕ
channel_capacity = 100

pub record Pipe : Type 0 where
  pub queue : List NormalizedEvent
  pub closed : Bool
  pub cancelled : Bool
  -- for each poll that is under way, the events that it has still to send
  pub polls : List (List NormalizedEvent)
  -- what polls have found, what producers have sent and what workers have received, the last two in order
  pub found : List NormalizedEvent
  pub sent : List NormalizedEvent
  pub received : List NormalizedEvent

abbrev pub new_pipe : Pipe
new_pipe = record {
  queue = [];
  closed = false;
  cancelled = false;
  polls = [];
  found = [];
  sent = [];
  received = [];
}

pub data Step : Pipe → Pipe → Type 0 where
  -- a producer has new events to send
  polls_source :
      (p : Pipe) (batch : List NormalizedEvent)
      → Step p (record p { polls = batch ∷ p.polls; found = batch ++ p.found })
  sends :
      (p : Pipe) (before after : List (List NormalizedEvent)) (event : NormalizedEvent)
      (rest : List NormalizedEvent)
      → p.polls ≡ before ++ (event ∷ rest) ∷ after
      → p.closed ≡ false
      → length p.queue < channel_capacity
      → Step p (record p {
        queue = p.queue ++ event ∷ [];
        polls = before ++ rest ∷ after;
        sent = p.sent ++ event ∷ [];
      })
  receives :
      (p : Pipe) (event : NormalizedEvent) (rest : List NormalizedEvent)
      → p.queue ≡ event ∷ rest
      → Step p (record p { queue = rest; received = p.received ++ event ∷ [] })
  -- `cancel()` of the shutdown
  cancels : (p : Pipe) → Step p (record p { cancelled = true })
  -- `close(eventsChan)`, which main reaches after `cancel()` and once
  closes : (p : Pipe) → p.cancelled ≡ true → p.closed ≡ false → Step p (record p { closed = true })

pub data Reach (p : Pipe) : Pipe → Type 0 where
  here : Reach p p
  next : {q r : Pipe} → Reach p q → Step q r → Reach p r

-- What the polls have still to send.
abbrev pub pending : List (List NormalizedEvent) → List NormalizedEvent
pending [] = []
pending (batch ∷ batches) = batch ++ pending batches

-- Each event that was found is one that was sent or that is still to be sent; what was sent is what was
-- received followed by what is queued; the channel holds at most 100.
pub record IsIntact (p : Pipe) : Type 0 where
  pub kept : Perm p.found (p.sent ++ pending p.polls)
  pub conserved : p.sent ≡ p.received ++ p.queue
  pub bounded : length p.queue ≤ channel_capacity
  pub ordered : p.closed ≡ true → p.cancelled ≡ true

pending-append :
    (before after : List (List NormalizedEvent))
    → pending (before ++ after) ≡ pending before ++ pending after
pending-append [] after = refl
pending-append (batch ∷ before) after =
    ap (λ l. batch ++ l) (pending-append before after)
    ∙ sym (append_assoc batch (pending before) (pending after))

past_sent :
    (batch sent rest : List NormalizedEvent)
    → Perm (batch ++ (sent ++ rest)) (sent ++ (batch ++ rest))
past_sent batch sent rest =
    subst (λ l. Perm (batch ++ (sent ++ rest)) l) (append_assoc sent batch rest)
      (subst (λ l. Perm l ((sent ++ batch) ++ rest)) (append_assoc batch sent rest)
        (Perm.append_right rest (perm_append_comm batch sent)))

-- A send moves the event from the polls to what was sent.
sent_from :
    (sent : List NormalizedEvent) (event : NormalizedEvent) (rest : List NormalizedEvent)
    (before after : List (List NormalizedEvent))
    → Perm
        (sent ++ pending (before ++ (event ∷ rest) ∷ after))
        ((sent ++ event ∷ []) ++ pending (before ++ rest ∷ after))
sent_from sent event rest before after =
    rw
      (
        pending-append before ((event ∷ rest) ∷ after),
        pending-append before (rest ∷ after),
        append_assoc sent (event ∷ []) (pending before ++ (rest ++ pending after)),
      )
      (Perm.append_left sent (perm_middle (pending before) (rest ++ pending after)))

Step-IsIntact : {p q : Pipe} → Step p q → IsIntact p → IsIntact q
Step-IsIntact (polls_source p batch) h = record {
  kept = Perm.trans (Perm.append_left batch h.kept) (past_sent batch p.sent (pending p.polls));
  conserved = h.conserved;
  bounded = h.bounded;
  ordered = λ c. h.ordered c;
}
Step-IsIntact (sends p before after event rest e o room) h = record {
  kept =
      Perm.trans (subst (λ l. Perm p.found (p.sent ++ pending l)) e h.kept)
        (sent_from p.sent event rest before after);
  conserved = ap (λ l. l ++ event ∷ []) h.conserved ∙ append_assoc p.received p.queue (event ∷ []);
  bounded = omega (arith, length-append p.queue (event ∷ []));
  ordered = λ c. h.ordered c;
}
Step-IsIntact (receives p event rest e) h = record {
  kept = h.kept;
  conserved =
      h.conserved ∙ ap (λ l. p.received ++ l) e ∙ sym (append_assoc p.received (event ∷ []) rest);
  bounded = omega (arith, h.bounded, ap length e);
  ordered = λ c. h.ordered c;
}
Step-IsIntact (cancels p) h = record {
  kept = h.kept;
  conserved = h.conserved;
  bounded = h.bounded;
  ordered = λ c. refl;
}
Step-IsIntact (closes p c o) h = record {
  kept = h.kept;
  conserved = h.conserved;
  bounded = h.bounded;
  ordered = λ _. c;
}

-- In every reachable state of the pipeline each event that a poll has found, counted as often as polls
-- found it, is still to be sent by its poll, in the channel, or received by a worker, and nothing else is;
-- the workers have received, in the order of sending, the events that were sent except those still in the
-- channel, which are at most 100; and the channel is closed only behind the cancellation.
pub Reach-IsIntact : {p : Pipe} → Reach new_pipe p → IsIntact p
Reach-IsIntact here = record {
  kept = Perm.nil;
  conserved = refl;
  bounded = omega arith;
  ordered = λ c. cc;
}
Reach-IsIntact (next r st) = Step-IsIntact st (Reach-IsIntact r)

-- ===== src/Pipeline/Drain/Terminates.antt =====
-- cmd/signalstream/main.go: the end of the workers.
use signalstream.Common.{
  ℕ, ◌+◌, ◌*◌, ◌≤◌, ◌≡◌, true, refl, ◌⊎◌, inl, inr, List, [], ◌∷◌, length, arith, subst,
}
use mathlib.Core.List.{Perm, append-nil}
use mathlib.Core.List.Perm
use signalstream.Platform.{NormalizedEvent}
use signalstream.Pipeline.Channel.{new_pipe, Pipe, Reach, Reach-IsIntact}
use signalstream.Pipeline.Drain.Steps.{
  weights, work, in_hand, events, Step-work, Step-events, AllFinished, EndsLast, Step-EndsLast,
  unfinished, moves,
}
use signalstream.Pipeline.Drain.{
  num_workers, Worker, idle, busy, finished, Pool, Step, Run, none_yet, then_one,
}

-- Every worker has ended, and the events that were in the channel or in a worker's hands have each been
-- handled once.
pub record IsDrained (p q : Pool) : Type 0 where
  pub all_finished : AllFinished q.workers
  pub nothing_left : q.queue ≡ []
  pub handled_once : Perm q.handled (events p)

Run-work : {p q : Pool} {n : ℕ} → Run p n q → n + work q ≡ work p
Run-work none_yet = omega arith
Run-work (then_one r st) = omega (arith, Run-work r, Step-work st)

Run-events : {p q : Pool} {n : ℕ} → Run p n q → Perm (events q) (events p)
Run-events {p} none_yet = Perm.refl (events p)
Run-events (then_one r st) = Perm.trans (Step-events st) (Run-events r)

Run-EndsLast : {p q : Pool} {n : ℕ} → Run p n q → EndsLast p → EndsLast q
Run-EndsLast none_yet h = h
Run-EndsLast (then_one r st) h = Step-EndsLast st (Run-EndsLast r h)

nothing_in_hand : (ws : List Worker) → AllFinished ws → (in_hand ws ≡ []) × (weights ws ≡ 0)
nothing_in_hand [] h = (refl, refl)
nothing_in_hand (idle ∷ ws) h = cc h.0
nothing_in_hand (busy event ∷ ws) h = cc h.0
nothing_in_hand (finished ∷ ws) h =
    let (held, none_left) = nothing_in_hand ws h.1 in (held, omega arith)

drained-handled :
    (q : Pool) (all : List NormalizedEvent)
    → AllFinished q.workers
    → q.queue ≡ []
    → Perm (events q) all
    → Perm q.handled all
drained-handled q all done empty same =
    let held = (nothing_in_hand q.workers done).0 in
    let flat : events q ≡ q.handled = rw held (rw empty (append-nil q.handled)) in
    subst (λ l. Perm l all) flat same

weights-bounds : (ws : List Worker) → weights ws ≤ 2 * length ws
weights-bounds [] = omega arith
weights-bounds (idle ∷ ws) = omega (arith, weights-bounds ws)
weights-bounds (busy event ∷ ws) = omega (arith, weights-bounds ws)
weights-bounds (finished ∷ ws) = omega (arith, weights-bounds ws)

-- The workers end after the shutdown: from a reachable state of the pipeline whose channel is closed,
-- with four workers of which one at least has not ended, no run of the workers is longer than 208 steps,
-- and a run that cannot go on has ended all workers, emptied the channel, and handled each event that was
-- in it or in a worker's hands once.
pub drain-terminates :
    (pipe : Pipe) (workers : List Worker) (n : ℕ) (q : Pool)
    → Reach new_pipe pipe
    → pipe.closed ≡ true
    → length workers ≡ num_workers
    → ¬ AllFinished workers
    → let start : Pool = record { queue = pipe.queue; workers = workers; handled = [] } in
      Run start n q → (n ≤ 208) × (((r : Pool) × Step q r) ⊎ IsDrained start q)
drain-terminates pipe workers n q reached shut four running run =
    let start : Pool = record { queue = pipe.queue; workers = workers; handled = [] } in
    let small = (Reach-IsIntact reached).bounded in
    let short : n ≤ 208 = omega (arith, Run-work run, weights-bounds workers) in
    elim (unfinished q.workers) [
      | inr (before, v, after, e, h) ↦ (short, inl (moves q before after v e h))
      | inl all ↦
          let empty = Run-EndsLast run (λ done. absurd (running done)) all in
          (
            short,
            inr (record {
              all_finished = all;
              nothing_left = empty;
              handled_once = drained-handled q (events start) all empty (Run-events run);
            }),
          )
    ]

-- ===== src/Pipeline/Tests.antt =====
-- A pipeline in which an event is sent and received, and the theorems at concrete events.
use signalstream.Common.{true, ◌≤◌, ◌⊎◌, List}
use signalstream.Pipeline.Drain as Drain
use signalstream.Pipeline.Drain.{Worker, idle, busy, Pool, none_yet, then_one}
use signalstream.Pipeline.Drain.Terminates.{IsDrained, drain-terminates}
use signalstream.Common.{◌∷◌, [], refl, arith}
use signalstream.Pipeline.Channel.{
  Pipe, new_pipe, Step, Reach, here, next, IsIntact, Reach-IsIntact,
}
use signalstream.Pipeline.Shutdown.{Panics, shutdown_may_panic}
use signalstream.Samples.{event}

abbrev polled : Pipe
polled = record new_pipe { polls = (event ∷ []) ∷ []; found = event ∷ [] }

abbrev passed : Pipe
passed = record polled { queue = []; polls = [] ∷ []; sent = event ∷ []; received = event ∷ [] }

run : Reach new_pipe passed
run =
    next
      (next (next here (Step.polls_source new_pipe (event ∷ [])))
        (Step.sends polled [] [] event [] refl refl (omega arith)))
      (Step.receives (record polled { queue = event ∷ []; polls = [] ∷ []; sent = event ∷ [] })
        event [] refl)

Reach-IsIntact_example : IsIntact passed
Reach-IsIntact_example = Reach-IsIntact run

shutdown_may_panic_example : (q : Pipe) × Reach polled q × Panics q
shutdown_may_panic_example = shutdown_may_panic polled [] [] event [] refl refl

abbrev queued : Pipe
queued = record polled { queue = event ∷ []; polls = [] ∷ []; sent = event ∷ [] }

abbrev stopping : Pipe
stopping = record queued { cancelled = true }

abbrev shut : Pipe
shut = record stopping { closed = true }

abbrev four_idle : List Worker
four_idle = idle ∷ idle ∷ idle ∷ idle ∷ []

abbrev one_taken : Pool
one_taken = record { queue = []; workers = busy event ∷ idle ∷ idle ∷ idle ∷ []; handled = [] }

abbrev at_close : Pool
at_close = record { queue = queued.queue; workers = four_idle; handled = [] }

drain-terminates_example :
    (1 ≤ 208) × (((r : Pool) × Drain.Step one_taken r) ⊎ IsDrained at_close one_taken)
drain-terminates_example =
    drain-terminates shut four_idle 1 one_taken
      (next
        (next
          (next (next here (Step.polls_source new_pipe (event ∷ [])))
            (Step.sends polled [] [] event [] refl refl (omega arith)))
          (Step.cancels queued))
        (Step.closes stopping refl refl))
      refl refl (λ all. cc all.0)
      (then_one none_yet (Drain.takes at_close [] (idle ∷ idle ∷ idle ∷ []) event [] refl refl))

-- ===== src/Pipeline/Drain.antt =====
-- cmd/signalstream/main.go: the workers once the channel is closed and no producer sends any more. Each
-- takes events off the channel until it is empty, and then ends.
pub mod Steps
pub mod Terminates
use signalstream.Common.{ℕ, zero, suc, ◌+◌, ◌*◌, ◌≡◌, List, [], ◌∷◌, ◌++◌, length, All}
use signalstream.Platform.{NormalizedEvent}

abbrev pub num_workers : ℕ
num_workers = 4

pub data Worker : Type 0 where
  -- about to receive
  idle : Worker
  busy : NormalizedEvent → Worker
  -- after `wg.Done()`
  finished : Worker

pub record Pool : Type 0 where
  pub queue : List NormalizedEvent
  pub workers : List Worker
  -- the last first
  pub handled : List NormalizedEvent

-- One step of some worker, in any order.
pub data Step : Pool → Pool → Type 0 where
  takes :
      (p : Pool) (before after : List Worker) (event : NormalizedEvent)
      (rest : List NormalizedEvent)
      → p.workers ≡ before ++ idle ∷ after
      → p.queue ≡ event ∷ rest
      → Step p (record p { queue = rest; workers = before ++ busy event ∷ after })
  completes :
      (p : Pool) (before after : List Worker) (event : NormalizedEvent)
      → p.workers ≡ before ++ busy event ∷ after
      → Step p (record p { workers = before ++ idle ∷ after; handled = event ∷ p.handled })
  ends :
      (p : Pool) (before after : List Worker)
      → p.workers ≡ before ++ idle ∷ after
      → p.queue ≡ []
      → Step p (record p { workers = before ++ finished ∷ after })

-- So many steps.
pub data Run (p : Pool) : ℕ → Pool → Type 0 where
  none_yet : Run p 0 p
  then_one : {n : ℕ} {q r : Pool} → Run p n q → Step q r → Run p (suc n) r

-- ===== src/Pipeline/Drain/Steps.antt =====
-- cmd/signalstream/main.go: what one step of a worker changes, and that some step is possible until all
-- workers have ended.
use signalstream.Common.{
  ℕ, suc, ◌+◌, ◌*◌, ◌≡◌, ◌≢◌, refl, sym, ◌∙◌, ap, ◌⊎◌, inl, inr, List, [], ◌∷◌, ◌++◌, length, All,
  arith, subst,
}
use mathlib.Core.List.{Perm, perm_middle}
use mathlib.Core.List.Perm
use signalstream.Platform.{NormalizedEvent}
use signalstream.Pipeline.Drain.{Worker, idle, busy, finished, Pool, Step, takes, completes, ends}

-- The steps that a worker has left, if it takes no further event.
abbrev pub weight : Worker → ℕ
weight idle = 1
weight (busy _) = 2
weight finished = 0

abbrev pub weights : List Worker → ℕ
weights [] = 0
weights (v ∷ ws) = weight v + weights ws

abbrev pub work : Pool → ℕ
work p = 2 * length p.queue + weights p.workers

abbrev pub in_hand : List Worker → List NormalizedEvent
in_hand [] = []
in_hand (busy event ∷ ws) = event ∷ in_hand ws
in_hand (idle ∷ ws) = in_hand ws
in_hand (finished ∷ ws) = in_hand ws

-- Every event that the pool has seen or has before it.
abbrev pub events : Pool → List NormalizedEvent
events p = (in_hand p.workers ++ p.handled) ++ p.queue

weights-append : (a b : List Worker) → weights (a ++ b) ≡ weights a + weights b
weights-append [] b = omega arith
weights-append (v ∷ a) b = omega (arith, weights-append a b)

in_hand-append : (a b : List Worker) → in_hand (a ++ b) ≡ in_hand a ++ in_hand b
in_hand-append [] b = refl
in_hand-append (idle ∷ a) b = in_hand-append a b
in_hand-append (busy event ∷ a) b = ap (λ l. event ∷ l) (in_hand-append a b)
in_hand-append (finished ∷ a) b = in_hand-append a b

pub Step-work : {p q : Pool} → Step p q → work p ≡ suc (work q)
Step-work (takes p before after event rest e o) =
    ground (
      arith,
      e,
      o,
      weights-append before (idle ∷ after),
      weights-append before (busy event ∷ after),
    )
Step-work (completes p before after event e) =
    ground
      (arith, e, weights-append before (idle ∷ after), weights-append before (busy event ∷ after))
Step-work (ends p before after e o) =
    ground
      (arith, e, o, weights-append before (idle ∷ after), weights-append before (finished ∷ after))

-- An event on its way to the front.
to_front :
    (a b c : List NormalizedEvent) (event : NormalizedEvent) (q : List NormalizedEvent)
    → Perm (((a ++ event ∷ b) ++ c) ++ q) (event ∷ (((a ++ b) ++ c) ++ q))
to_front a b c event q = Perm.append_right q (Perm.append_right c (perm_middle a b))

pub Step-events : {p q : Pool} → Step p q → Perm (events q) (events p)
Step-events (takes p before after event rest e o) =
    let a = in_hand before in
    let b = in_hand after in
    let old : events p ≡ ((a ++ b) ++ p.handled) ++ event ∷ rest =
      rw e (rw o (rw (in_hand-append before (idle ∷ after)) refl)) in
    let new : Perm ((in_hand (before ++ busy event ∷ after) ++ p.handled) ++ rest)
        (event ∷ (((a ++ b) ++ p.handled) ++ rest)) =
      rw (in_hand-append before (busy event ∷ after)) (to_front a b p.handled event rest) in
    subst (Perm _) (sym old) (Perm.trans new (Perm.symm (perm_middle ((a ++ b) ++ p.handled) rest)))
Step-events (completes p before after event e) =
    let a = in_hand before in
    let b = in_hand after in
    let old : events p ≡ ((a ++ event ∷ b) ++ p.handled) ++ p.queue =
      rw e (rw (in_hand-append before (busy event ∷ after)) refl) in
    let new : Perm ((in_hand (before ++ idle ∷ after) ++ event ∷ p.handled) ++ p.queue)
        (event ∷ (((a ++ b) ++ p.handled) ++ p.queue)) =
      rw (in_hand-append before (idle ∷ after))
        (Perm.append_right p.queue (perm_middle (a ++ b) p.handled)) in
    subst (Perm _) (sym old) (Perm.trans new (Perm.symm (to_front a b p.handled event p.queue)))
Step-events (ends p before after e o) =
    let same : in_hand (before ++ finished ∷ after) ≡ in_hand p.workers =
      in_hand-append before (finished ∷ after)
      ∙ sym (ap in_hand e ∙ in_hand-append before (idle ∷ after)) in
    subst (λ l. Perm ((l ++ p.handled) ++ p.queue) (events p)) (sym same) (Perm.refl (events p))

abbrev pub AllFinished : List Worker → Type 0
AllFinished ws = All (λ v. v ≡ finished) ws

still_running :
    (before after : List Worker) (v : Worker) → AllFinished (before ++ v ∷ after) → v ≡ finished
still_running [] after v h = h.0
still_running (_ ∷ before) after v h = still_running before after v h.1

-- A worker ends only when the channel is empty.
abbrev pub EndsLast : Pool → Type 0
EndsLast p = AllFinished p.workers → p.queue ≡ []

pub Step-EndsLast : {p q : Pool} → Step p q → EndsLast p → EndsLast q
Step-EndsLast (takes p before after event rest e o) h =
    λ all. absurd (ground (arith, still_running before after (busy event) all))
Step-EndsLast (completes p before after event e) h =
    λ all. absurd (ground (arith, still_running before after idle all))
Step-EndsLast (ends p before after e o) h = λ all. o

-- Some worker has not ended, or all have.
pub unfinished :
    (ws : List Worker)
    → AllFinished ws
      ⊎ ((before : List Worker) × (v : Worker) × (after : List Worker) × (ws ≡ before ++ v ∷ after)
          × (weight v ≢ 0))
unfinished [] = inl tt
unfinished (idle ∷ ws) = inr ([], idle, ws, refl, omega arith)
unfinished (busy event ∷ ws) = inr ([], busy event, ws, refl, omega arith)
unfinished (finished ∷ ws) = elim (unfinished ws) [
  | inl all ↦ inl (refl, all)
  | inr (before, v, after, e, h) ↦ inr (finished ∷ before, v, after, ap (λ l. finished ∷ l) e, h)
]

pub moves :
    (p : Pool) (before after : List Worker) (v : Worker)
    → p.workers ≡ before ++ v ∷ after
    → weight v ≢ 0
    → (q : Pool) × Step p q
moves p before after (busy event) e h = (
  record p { workers = before ++ idle ∷ after; handled = event ∷ p.handled },
  completes p before after event e,
)
moves p before after finished e h = absurd (h refl)
moves p before after idle e h = elim (queue_cases p.queue) [
  | inl o ↦ (record p { workers = before ++ finished ∷ after }, ends p before after e o)
  | inr (event, rest, o) ↦ (
    record p { queue = rest; workers = before ++ busy event ∷ after },
    takes p before after event rest e o,
  )
]
  where
    queue_cases :
        (q : List NormalizedEvent)
        → (q ≡ [])
          ⊎ ((event : NormalizedEvent) × (rest : List NormalizedEvent) × (q ≡ event ∷ rest))
    queue_cases [] = inl refl
    queue_cases (event ∷ rest) = inr (event, rest, refl)

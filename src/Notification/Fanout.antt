-- ===== src/Notification/Fanout.antt =====
-- internal/notification/notifier.go: `MultiNotifier.Send` beside a call of every notifier.
use signalstream.Common.{◌≡◌, refl, List, [], ◌∷◌, none, some, Failure, arith}
use signalstream.Platform.{World}
use signalstream.Notification.{Notifier, AlertData, keep_first, send_from, multi_send}

-- The first error of a list of answers, if any.
pub first_failure : List Failure → Failure
first_failure [] = none
first_failure (none ∷ fs) = first_failure fs
first_failure (some e ∷ fs) = some e

module _ {E : Type 0} where
  -- Independent of the loop: every notifier is called once, in order, on the state that the one before
  -- it left, and all answers are collected.
  pub call_all : List (Notifier E) → AlertData → World E → List Failure × World E
  call_all [] alert w = ([], w)
  call_all (n ∷ ns) alert w =
      let (failure, w') = n alert w in
      let (failures, w'') = call_all ns alert w' in (failure ∷ failures, w'')

  send_from-eq :
      (first : Failure) (ns : List (Notifier E)) (alert : AlertData) (w : World E)
      → let (failures, w') = call_all ns alert w in
        send_from first ns alert w ≡ (keep_first first (first_failure failures), w')
  unfolding send_from keep_first call_all first_failure
  send_from-eq none [] alert w = refl
  send_from-eq (some e) [] alert w = refl
  send_from-eq none (n ∷ ns) alert w =
      ground (arith, send_from-eq (n alert w).0 ns alert (n alert w).1)
  send_from-eq (some e) (n ∷ ns) alert w = send_from-eq (some e) ns alert (n alert w).1

  -- An alert reaches every notifier once and in order, whatever the others answer, and the result is
  -- the first error, or nil if there is none.
  pub multi_send-eq-call_all :
      (ns : List (Notifier E)) (alert : AlertData) (w : World E)
      → let (failures, w') = call_all ns alert w in
        multi_send ns alert w ≡ (first_failure failures, w')
  unfolding multi_send keep_first
  multi_send-eq-call_all ns alert w = send_from-eq none ns alert w

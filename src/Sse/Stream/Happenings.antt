-- ===== src/Sse/Stream/Happenings.antt =====
-- internal/sse/broker.go, `ServeHTTP`: what a list of happenings holds, and one receive.
use signalstream.Common.{
  ◌≡◌, ◌⊎◌, refl, Bool, true, false, List, [], ◌∷◌, ◌++◌, some, Text, arith, inl, inr,
}
use signalstream.Sse.{Chan, receive, taken, blocks, payload, frame}
use signalstream.Sse.Sessions.{subscribes, unsubscribes, broadcasts, reads}
use signalstream.Sse.Stream.{Happening, elsewhere, looks, done}

-- The frames of some payloads.
abbrev pub frames : List Text → Text
frames [] = []
frames (p ∷ ps) = frame p ++ frames ps

-- Other goroutines subscribe and broadcast only.
abbrev pub IsQuiet : {D : Type 0} → Happening D → Type 0
IsQuiet (elsewhere (subscribes _)) = Unit
IsQuiet (elsewhere (broadcasts _ _)) = Unit
IsQuiet (elsewhere (unsubscribes _ _)) = ⊥
IsQuiet (elsewhere (reads _ _ _)) = ⊥
IsQuiet looks = Unit
IsQuiet done = Unit

abbrev pub ends : {D : Type 0} → List (Happening D) → Bool
ends [] = false
ends (done ∷ hs) = true
ends (looks ∷ hs) = ends hs
ends (elsewhere _ ∷ hs) = ends hs

pub receive-open :
    (c : Chan) (q : List Text)
    → c.buffer ≡ q
    → c.closed ≡ false
    → ((q ≡ []) × (receive c ≡ blocks))
      ⊎ ((p : Text) × (q' : List Text) × (q ≡ p ∷ q')
          × (receive c ≡ payload p (record c { buffer = q' }))
          × (taken c ≡ some (record c { buffer = q' })))
unfolding receive taken
receive-open c [] held is_open = inl (refl, ground arith)
receive-open c (p ∷ q') held is_open = inr (p, q', refl, ground arith, ground arith)

-- ===== src/Sse/Delivery.antt =====
-- internal/sse/broker.go: from a broadcast to the session that reads it.
use signalstream.Common.{
  ℕ, ◌≡◌, ◌≢◌, refl, true, false, [], ◌∷◌, some, Text, Result, ok, text_eq_refl, get_elem?, subst,
  arith,
}
use signalstream.Sse.{Chan, Broker, subscribe, broadcast, receive, payload}
use signalstream.Sse.Invariant.{IsSound, listed, Delivered, subscribe-IsSound, broadcast-Delivered}

-- A session that has just subscribed to a sound broker reads a broadcast to its user, of a value that
-- can be encoded, as its first and only payload,
-- while a channel of another user holds what it held before.
pub subscriber_receives :
    {D : Type 0} (marshal : D → Result Text) (u : Text) (datum : D) (p : Text) (b : Broker)
    → IsSound b
    → marshal datum ≡ ok p
    → let (ch, b₁) = subscribe u b in
      (b₂ : Broker) × (c : Chan) × (broadcast marshal u datum b₁ ≡ some b₂)
      × (get_elem? b₂.chans ch ≡ some c)
      × (receive c ≡ payload p (record { buffer = []; closed = false }))
      × ((v : Text) (i : ℕ)
          → v ≢ u
          → listed b v i ≡ true
          → get_elem? b₂.chans i ≡ get_elem? b₁.chans i)
unfolding receive
subscriber_receives marshal u datum p b h q =
    let (sound, at, fresh, now) = subscribe-IsSound u b h in
    let (ch, b₁) = subscribe u b in
    let (b₂, e, _, sent) = broadcast-Delivered marshal u datum b₁ sound in
    let (same, changed) = subst (Delivered u b₁ b₂) q sent in
    (
      b₂,
      record { buffer = p ∷ []; closed = false },
      e,
      ground (arith, changed ch, now u ch, text_eq_refl u),
      refl,
      λ v i ne l. ground (arith, changed i, now u i, text_eq_refl u, fresh v, h.exclusive u v i),
    )

-- ===== src/Sse/Sessions/Refinement.antt =====
-- internal/sse/broker.go: the broker against its promise to the sessions.
use signalstream.Common.{
  suc, ◌≡◌, refl, List, [], ◌∷◌, none, some, Result, Text, arith, inl, inr, Option-cases, subst,
}
use signalstream.Sse.{Broker, subscribe, new_broker}
use signalstream.Sse.Sessions.Steps.{
  Refines, new_broker-Refines, subscribe-Refines, unsubscribe-Refines, broadcast-Refines,
  read-Refines,
}
use signalstream.Sse.Sessions.{
  Op, subscribes, unsubscribes, broadcasts, reads, Sessions, no_sessions, set, next_is, promise,
  perform, perform_all,
}

module _ {D : Type 0} (marshal : D → Result Text) where
  perform-Refines :
      (o : Op D) (b : Broker) (s s' : Sessions)
      → Refines b s
      → promise marshal o s ≡ some s'
      → (b' : Broker) × (perform marshal o b ≡ some b') × Refines b' s'
  unfolding perform
  perform-Refines (subscribes u) b s s' h e =
      let now : set u s.made (some []) (record s { made = suc s.made }) ≡ s' =
        unfold promise in ground arith in
      ((subscribe u b).1, refl, subst (Refines (subscribe u b).1) now (subscribe-Refines u b s h))
  perform-Refines (unsubscribes u i) b s s' h e = elim (Option-cases (s.waiting u i)) [
    | inl missing ↦ absurd (unfold promise in ground arith)
    | inr (q, at) ↦
        let (b', done, after) = unsubscribe-Refines u i b s q h at in
        let now : set u i none s ≡ s' = unfold promise in ground arith in
        (b', done, subst (Refines b') now after)
  ]
  perform-Refines (broadcasts u datum) b s s' h e = broadcast-Refines marshal u datum b s s' h e
  perform-Refines (reads u i p) b s s' h e = elim (Option-cases (s.waiting u i)) [
    | inl missing ↦ absurd (unfold promise in ground arith)
    | inr (q, at) ↦ elim (Option-cases (next_is p q)) [
      | inl other ↦ absurd (unfold promise in ground arith)
      | inr (rest, n) ↦
          let (cs, went, after) = read-Refines p u i b s q rest h at n in
          let now : set u i (some rest) s ≡ s' = unfold promise in ground arith in
          (
            record b { chans = cs },
            ground arith,
            subst (Refines (record b { chans = cs })) now after,
          )
    ]
  ]

  perform_all-Refines :
      (os : List (Op D)) (b : Broker) (s s' : Sessions)
      → Refines b s
      → perform_all (promise marshal) os s ≡ some s'
      → (b' : Broker) × (perform_all (perform marshal) os b ≡ some b') × Refines b' s'
  unfolding perform_all
  perform_all-Refines [] b s s' h e = (b, refl, subst (Refines b) (ground arith) h)
  perform_all-Refines (o ∷ os) b s s' h e = elim (Option-cases (promise marshal o s)) [
    | inl stuck ↦ absurd (ground arith)
    | inr (t, at) ↦
        let (c, went, mid) = perform-Refines o b s t h at in
        let (b', done, after) = perform_all-Refines os c t s' mid (ground arith) in
        (b', ground arith, after)
  ]

  -- A new broker performs every sequence of subscriptions, broadcasts, reads and unsubscriptions that the
  -- promise allows, one operation after the other, without a panic, and then is sound and holds for each
  -- session exactly the payloads that the promise has waiting for it.
  pub broker_keeps_promise :
      (os : List (Op D)) (s : Sessions)
      → perform_all (promise marshal) os no_sessions ≡ some s
      → (b : Broker) × (perform_all (perform marshal) os new_broker ≡ some b) × Refines b s
  broker_keeps_promise os s e = perform_all-Refines os new_broker no_sessions s new_broker-Refines e

-- ===== src/Sse/Sessions/Steps.antt =====
-- internal/sse/broker.go: each operation of the broker against its promise to the sessions.
use signalstream.Common.{
  ◌≤◌, ℕ, suc, ◌≡◌, refl, sym, ◌∙◌, Bool, true, false, List, [], ◌∷◌, Option, none, some, Result,
  Text, text_eq, text_eq_iff, length, length-append, get_elem?, get_elem?-concat, ◌==◌,
  if◌then◌else◌, arith, inl, inr, Option-cases, Result-cases, Bool-cases, subst,
}
use signalstream.Sse.{
  Chan, Broker, subscribe, unsubscribe, broadcast, on_chan, close_chan, receive, new_broker,
  user_clients, contains,
}
use signalstream.Sse.Channels.{Updated, on_chan-some, on_chan-Updated, delivered}
use signalstream.Sse.Invariant.{
  IsSound, listed, Delivered, subscribe-IsSound, unsubscribe-IsSound, broadcast-Delivered,
}
use signalstream.Sse.Race.{exchange-IsSound, new_broker-IsSound}
use signalstream.Sse.Sessions.{
  broadcasts, Sessions, no_sessions, set, add_payload, next_is, promise, read_chan,
}

-- The payloads in a channel.
abbrev pub queue_at : List Chan → ℕ → Option (List Text)
queue_at cs i = elim (get_elem? cs i) [ none ↦ none | some c ↦ some c.buffer ]

-- The sessions that a broker stands for.
abbrev pub view : Broker → Text → ℕ → Option (List Text)
view b u i = if listed b u i then queue_at b.chans i else none

pub record Refines (b : Broker) (s : Sessions) : Type 0 where
  pub sound : IsSound b
  pub made : s.made ≡ length b.chans
  pub waiting : (u : Text) (i : ℕ) → s.waiting u i ≡ view b u i

pub new_broker-Refines : Refines new_broker no_sessions
unfolding user_clients contains
new_broker-Refines = record { sound = new_broker-IsSound; made = refl; waiting = λ u i. refl }

pub subscribe-Refines :
    (u : Text) (b : Broker) (s : Sessions)
    → Refines b s
    → Refines (subscribe u b).1 (set u s.made (some []) (record s { made = suc s.made }))
unfolding set subscribe
subscribe-Refines u b s h =
    let (sound, here, fresh, now) = subscribe-IsSound u b h.sound in
    let new : Chan = record { buffer = []; closed = false } in
    let at = get_elem?-concat b.chans new in
    record {
      sound = sound;
      made = ground (arith, h.made, length-append b.chans (new ∷ []));
      waiting = λ v i. ground (arith, h.made, h.waiting v i, now v i, at i, fresh v);
    }

pub waiting-listed :
    (u : Text) (i : ℕ) (b : Broker) (s : Sessions) (q : List Text)
    → Refines b s
    → s.waiting u i ≡ some q
    → (listed b u i ≡ true) × (c : Chan) × (get_elem? b.chans i ≡ some c) × (c.buffer ≡ q)
waiting-listed u i b s q h e = elim (Bool-cases (listed b u i)) [
  | inr other ↦ absurd (ground (arith, h.waiting u i))
  | inl ours ↦ elim (Option-cases (get_elem? b.chans i)) [
    | inl missing ↦ absurd (ground (arith, h.waiting u i))
    | inr (c, at) ↦ (ours, c, at, ground (arith, h.waiting u i))
  ]
]

same_length :
    (xs ys : List Chan)
    → ((i : ℕ) → (get_elem? xs i ≡ none) → get_elem? ys i ≡ none)
    → ((i : ℕ) → (get_elem? ys i ≡ none) → get_elem? xs i ≡ none)
    → length xs ≡ length ys
same_length [] [] h k = refl
same_length [] (y ∷ ys) h k = absurd (ground (arith, h 0))
same_length (x ∷ xs) [] h k = absurd (ground (arith, k 0))
same_length (x ∷ xs) (y ∷ ys) h k =
    let rest = same_length xs ys (λ i. h (suc i)) (λ i. k (suc i)) in ground arith

length-Updated :
    (f : Chan → Chan) (at : ℕ → Bool) (cs cs' : List Chan)
    → Updated f at cs cs'
    → length cs ≡ length cs'
length-Updated f at cs cs' u =
    same_length cs cs' (λ i h. ground (arith, u i))
      (λ i h. elim (Option-cases (get_elem? cs i)) [
        | inl there ↦ there
        | inr (c, e) ↦ absurd (ground (arith, u i))
      ])

pub unsubscribe-Refines :
    (u : Text) (i : ℕ) (b : Broker) (s : Sessions) (q : List Text)
    → Refines b s
    → s.waiting u i ≡ some q
    → (b' : Broker) × (unsubscribe u i b ≡ some b') × Refines b' (set u i none s)
unfolding set
unsubscribe-Refines u i b s q h e =
    let (ours, c, at, held) = waiting-listed u i b s q h e in
    let (b', done, sound, closed, now) = unsubscribe-IsSound u i b h.sound ours in
    let went : on_chan close_chan b.chans i ≡ some b'.chans = unfold unsubscribe in ground arith in
    let (c, c', at, shut, changed) = on_chan-some close_chan b.chans b'.chans i went in
    (
      b',
      done,
      record {
        sound = sound;
        made = h.made ∙ length-Updated (λ _. c') (λ j. i == j) b.chans b'.chans changed;
        waiting = λ v j. ground (
          arith,
          h.waiting v j,
          now v j,
          changed j,
          h.sound.exclusive u v i ours,
          text_eq_iff u v,
        );
      },
    )

sent-view :
    (p u v : Text) (j : ℕ) (b b' : Broker)
    → IsSound b
    → b'.clients ≡ b.clients
    → Updated (delivered p) (λ j. listed b u j) b.chans b'.chans
    → (if text_eq u v then add_payload p (view b v j) else view b v j) ≡ view b' v j
unfolding add_payload
sent-view p u v j b b' h listing changed =
    ground (arith, changed j, h.exclusive u v j, text_eq_iff u v)

pub broadcast-Refines :
    {D : Type 0} (marshal : D → Result Text) (u : Text) (datum : D) (b : Broker) (s s' : Sessions)
    → Refines b s
    → promise marshal (broadcasts u datum) s ≡ some s'
    → (b' : Broker) × (broadcast marshal u datum b ≡ some b') × Refines b' s'
unfolding promise
broadcast-Refines marshal u datum b s s' h e =
    let (b', done, sound, sent) = broadcast-Delivered marshal u datum b h.sound in
    elim (Result-cases (marshal datum)) [
      | inr (f, q) ↦
          let same : b ≡ b' = sym (subst (Delivered u b b') q sent) in
          let still : s ≡ s' = ground arith in
          (b', done, subst (λ x. Refines b' x) still (subst (λ x. Refines x s) same h))
      | inl (p, q) ↦
          let (listing, changed) = subst (Delivered u b b') q sent in
          let after : Sessions = record s {
            waiting = λ v j. if text_eq u v then add_payload p (s.waiting v j) else s.waiting v j;
          } in
          let now : after ≡ s' = ground arith in
          let refines : Refines b' after = record {
            sound = sound;
            made =
                h.made ∙ length-Updated (delivered p) (λ j. listed b u j) b.chans b'.chans changed;
            waiting = λ v j.
                ground (arith, h.waiting v j, sent-view p u v j b b' h.sound listing changed);
          } in
          (b', done, subst (Refines b') now refines)
    ]

read_chan-eq :
    (p : Text) (q rest : List Text) (closed : Bool)
    → next_is p q ≡ some rest
    → read_chan p (record { buffer = q; closed = closed })
      ≡ some (record { buffer = rest; closed = closed })
unfolding read_chan receive next_is
read_chan-eq p [] rest closed e = ground arith
read_chan-eq p (x ∷ q) rest closed e = ground arith

length-next_is :
    (p : Text) (q rest : List Text) → next_is p q ≡ some rest → length q ≡ suc (length rest)
unfolding next_is
length-next_is p [] rest e = ground arith
length-next_is p (x ∷ q) rest e = ground arith

-- An operation that takes the first payloads off the channel of a session.
pub take-Refines :
    (f : Chan → Option Chan) (u : Text) (i : ℕ) (b : Broker) (s : Sessions) (c : Chan)
    (rest : List Text)
    → Refines b s
    → listed b u i ≡ true
    → get_elem? b.chans i ≡ some c
    → f c ≡ some (record c { buffer = rest })
    → length rest ≤ length c.buffer
    → (cs : List Chan) × (on_chan f b.chans i ≡ some cs)
      × Refines (record b { chans = cs }) (set u i (some rest) s)
unfolding set
take-Refines f u i b s c rest h ours at taking less =
    let shorter : Chan = record c { buffer = rest } in
    let (cs, went, changed) = on_chan-Updated f (λ _. shorter) b.chans i c at taking in
    (
      cs,
      went,
      record {
        sound =
            exchange-IsSound b cs i c shorter h.sound at refl
              (omega (arith, h.sound.bounded i c at, less)) changed;
        made = h.made ∙ length-Updated (λ _. shorter) (λ j. i == j) b.chans cs changed;
        waiting = λ v j.
            ground (arith, h.waiting v j, changed j, h.sound.exclusive u v i ours, text_eq_iff u v);
      },
    )

pub read-Refines :
    (p u : Text) (i : ℕ) (b : Broker) (s : Sessions) (q rest : List Text)
    → Refines b s
    → s.waiting u i ≡ some q
    → next_is p q ≡ some rest
    → (cs : List Chan) × (on_chan (read_chan p) b.chans i ≡ some cs)
      × Refines (record b { chans = cs }) (set u i (some rest) s)
read-Refines p u i b s q rest h e n =
    let (ours, c, at, held) = waiting-listed u i b s q h e in
    let now : next_is p c.buffer ≡ some rest = rw held n in
    take-Refines (read_chan p) u i b s c rest h ours at (read_chan-eq p c.buffer rest c.closed now)
      (omega (arith, length-next_is p c.buffer rest now))

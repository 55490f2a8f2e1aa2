-- ===== src/Sse/Invariant.antt =====
-- internal/sse/broker.go: what holds between the operations of the broker, and each operation that
-- runs without interruption.
use signalstream.Common.{
  ℕ, ◌≤◌, ◌≡◌, refl, Bool, true, false, List, [], ◌∷◌, some, Text, Result, ok, err, Result-cases,
  length-append, length, get_elem?, get_elem?-concat, get_elem?-length, All, text_eq, text_eq_iff,
  ◌==◌, if◌then◌else◌, arith, inl, inr, Option-cases,
}
use signalstream.Sse.{
  Chan, Broker, buffer_size, user_clients, contains, subscribe, unsubscribe, on_chan, close_chan,
  broadcast, remove_client,
}
use signalstream.Sse.Clients.{
  IsTidy, IsDistinct, contains-add_client, contains-remove_client, add_client-IsTidy,
  remove_client-IsTidy, user_clients-add_client-IsDistinct, user_clients-remove_client-IsDistinct,
}
use signalstream.Sse.Channels.{Updated, on_chan-Updated, delivered, is_open_at, offer_all-Updated}

abbrev pub listed : Broker → Text → ℕ → Bool
listed b u i = contains i (user_clients u b.clients)

-- Every user is listed once and never with an empty set, every listed channel is open and belongs to
-- one user, and no buffer holds more than its capacity.
pub record IsSound (b : Broker) : Type 0 where
  pub tidy : IsTidy b.clients
  pub distinct : (u : Text) → IsDistinct (user_clients u b.clients)
  pub open_clients : (u : Text) (i : ℕ) → listed b u i ≡ true → is_open_at b.chans i ≡ true
  pub exclusive : (u v : Text) (i : ℕ) → listed b u i ≡ true → listed b v i ≡ true → u ≡ v
  pub bounded : (i : ℕ) (c : Chan) → get_elem? b.chans i ≡ some c → length c.buffer ≤ buffer_size

new_channel_unlisted : (b : Broker) → IsSound b → (u : Text) → listed b u (length b.chans) ≡ false
new_channel_unlisted b h u =
    ground (arith, h.open_clients u (length b.chans), get_elem?-length b.chans)

-- On a sound broker `Subscribe` keeps the invariant, returns a channel that is open and empty and that no user had
-- before, and lists it for the user alone, beside what was listed before.
pub subscribe-IsSound :
    (u : Text) (b : Broker)
    → IsSound b
    → let (ch, b') = subscribe u b in
      IsSound b'
      × (get_elem? b'.chans ch ≡ some (record { buffer = []; closed = false }))
      × ((v : Text) → listed b v ch ≡ false)
      × ((v : Text) (i : ℕ)
          → listed b' v i
            ≡ (if text_eq u v then if i == ch then true else listed b v i else listed b v i))
unfolding subscribe
subscribe-IsSound u b h =
    let ch = length b.chans in
    let fresh = new_channel_unlisted b h in
    let now = λ (v : Text) (i : ℕ). contains-add_client u v ch i b.clients in
    let at = get_elem?-concat b.chans (record { buffer = []; closed = false }) in
    (
      record {
        tidy = add_client-IsTidy u ch b.clients h.tidy;
        distinct = λ v. user_clients-add_client-IsDistinct u v ch b.clients (h.distinct v);
        open_clients = λ v i l. ground (arith, now v i, at i, h.open_clients v i);
        exclusive = λ v w i l m. ground (
          arith,
          now v i,
          now w i,
          text_eq_iff u v,
          text_eq_iff u w,
          fresh v,
          fresh w,
          h.exclusive v w i,
        );
        bounded = λ i c e. ground (arith, at i, h.bounded i c);
      },
      ground (arith, at ch),
      fresh,
      now,
    )

closing : Chan → Chan
closing c = record c { closed = true }

close_listed :
    (u : Text) (ch : ℕ) (b : Broker)
    → IsSound b
    → listed b u ch ≡ true
    → (cs : List Chan) × (on_chan close_chan b.chans ch ≡ some cs)
      × Updated closing (λ j. ch == j) b.chans cs
close_listed u ch b h l = elim (Option-cases (get_elem? b.chans ch)) [
  | inl missing ↦ absurd (ground (arith, h.open_clients u ch))
  | inr (c, e) ↦
      on_chan-Updated close_chan closing b.chans ch c e
        (unfold close_chan closing in ground (arith, h.open_clients u ch))
]

-- Of a channel that a sound broker lists for the user, `Unsubscribe` does not panic, keeps the invariant, closes
-- the channel, and unlists it and nothing else.
pub unsubscribe-IsSound :
    (u : Text) (ch : ℕ) (b : Broker)
    → IsSound b
    → listed b u ch ≡ true
    → (b' : Broker) × (unsubscribe u ch b ≡ some b')
      × IsSound b'
      × (is_open_at b'.chans ch ≡ false)
      × ((v : Text) (i : ℕ)
          → listed b' v i
            ≡ (if text_eq u v then if ch == i then false else listed b v i else listed b v i))
unfolding unsubscribe closing
unsubscribe-IsSound u ch b h l =
    let (cs, e, at) = close_listed u ch b h l in
    let now = λ (v : Text) (i : ℕ). contains-remove_client u v ch i b.clients h.tidy in
    (
      record { clients = remove_client u ch b.clients; chans = cs },
      ground arith,
      record {
        tidy = remove_client-IsTidy u ch b.clients h.tidy;
        distinct =
            λ v. user_clients-remove_client-IsDistinct u v ch b.clients h.tidy (h.distinct v);
        open_clients = λ v i m.
            ground (arith, now v i, at i, h.open_clients v i, h.exclusive u v i, text_eq_iff u v);
        exclusive = λ v w i m n. ground (arith, now v i, now w i, h.exclusive v w i);
        bounded = λ i c q. elim (Option-cases (get_elem? b.chans i)) [
          | inl missing ↦ ground (arith, at i)
          | inr (c', e') ↦ ground (arith, at i, h.bounded i c' e')
        ];
      },
      ground (arith, at ch, h.open_clients u ch),
      now,
    )

listed_open :
    (b : Broker) (is : List ℕ)
    → ((i : ℕ) → contains i is ≡ true → is_open_at b.chans i ≡ true)
    → All (λ i. is_open_at b.chans i ≡ true) is
unfolding contains
listed_open b [] h = tt
listed_open b (i ∷ is) h = (h i (ground arith), listed_open b is (λ j m. h j (ground arith)))

-- The broker after a value was encoded, or not: in the first case each channel of the user has the
-- payload at the end of its buffer, unless the buffer was full, and nothing else has changed; in the
-- second nothing has.
abbrev pub Delivered : Text → Broker → Broker → Result Text → Type 0
Delivered u b b' (ok p) =
    (b'.clients ≡ b.clients) × Updated (delivered p) (λ j. listed b u j) b.chans b'.chans
Delivered u b b' (err _) = b' ≡ b

delivered-IsSound :
    (p u : Text) (b : Broker) (cs : List Chan)
    → IsSound b
    → Updated (delivered p) (λ j. listed b u j) b.chans cs
    → IsSound (record b { chans = cs })
delivered-IsSound p u b cs h at = record {
  tidy = h.tidy;
  distinct = h.distinct;
  open_clients = λ v i l. ground (arith, at i, h.open_clients v i);
  exclusive = h.exclusive;
  bounded = λ i c q. elim (Option-cases (get_elem? b.chans i)) [
    | inl missing ↦ ground (arith, at i)
    | inr (c', e') ↦ ground (arith, at i, h.bounded i c' e', length-append c'.buffer (p ∷ []))
  ];
}

-- From a sound broker, `Broadcast` that runs without interruption does not panic and keeps the
-- invariant; it delivers the encoded value to every channel of the user that has room and to no other
-- channel, and changes nothing if the value cannot be encoded.
pub broadcast-Delivered :
    {D : Type 0} (marshal : D → Result Text) (u : Text) (datum : D) (b : Broker)
    → IsSound b
    → (b' : Broker) × (broadcast marshal u datum b ≡ some b')
      × IsSound b'
      × Delivered u b b' (marshal datum)
unfolding broadcast
broadcast-Delivered marshal u datum b h = elim (Result-cases (marshal datum)) [
  | inr (e, q) ↦ rw q (b, ground arith, h, refl)
  | inl (p, q) ↦
      let is = user_clients u b.clients in
      let (cs, r, at) =
        offer_all-Updated p is b.chans (h.distinct u) (listed_open b is (h.open_clients u)) in
      rw q (record b { chans = cs }, ground arith, delivered-IsSound p u b cs h at, (refl, at))
]

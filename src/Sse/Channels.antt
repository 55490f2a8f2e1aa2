-- ===== src/Sse/Channels.antt =====
-- internal/sse/broker.go: operations on the heap of channels, place by place.
use signalstream.Common.{
  ℕ, not, All, zero, suc, ◌≡◌, refl, Bool, true, false, List, [], ◌∷◌, ◌++◌, Option, none, some,
  Text, length, ltb, get_elem?, ◌==◌, if◌then◌else◌, arith, inl, inr, Option-cases,
}
use signalstream.Sse.{Chan, buffer_size, contains, on_chan, offer, offer_all}
use signalstream.Sse.Clients.{IsDistinct}

-- A heap that differs from `cs` by `f` at the places that `at` selects.
abbrev pub Updated : (Chan → Chan) → (ℕ → Bool) → List Chan → List Chan → Type 0
Updated f at cs cs' =
    (j : ℕ)
    → get_elem? cs' j ≡ (
        if at j
        then elim (get_elem? cs j) [ none ↦ none | some c ↦ some (f c) ]
        else get_elem? cs j)

Updated-here :
    (g : Chan → Chan) (x : Chan) (xs : List Chan) → Updated g (λ j. 0 == j) (x ∷ xs) (g x ∷ xs)
Updated-here g x xs zero = refl
Updated-here g x xs (suc j) = ground arith

Updated-there :
    (g : Chan → Chan) (i : ℕ) (x : Chan) (xs xs' : List Chan)
    → Updated g (λ j. i == j) xs xs'
    → Updated g (λ j. suc i == j) (x ∷ xs) (x ∷ xs')
Updated-there g i x xs xs' u zero = ground arith
Updated-there g i x xs xs' u (suc j) = ground (arith, u j)

pub on_chan-Updated :
    (f : Chan → Option Chan) (g : Chan → Chan) (cs : List Chan) (i : ℕ) (c : Chan)
    → get_elem? cs i ≡ some c
    → f c ≡ some (g c)
    → (cs' : List Chan) × (on_chan f cs i ≡ some cs') × Updated g (λ j. i == j) cs cs'
unfolding on_chan
on_chan-Updated f g [] i c h e = cc
on_chan-Updated f g (x ∷ xs) zero c h e = (g x ∷ xs, ground arith, Updated-here g x xs)
on_chan-Updated f g (x ∷ xs) (suc i) c h e =
    let (xs', r, u) = on_chan-Updated f g xs i c h e in
    (x ∷ xs', ground arith, Updated-there g i x xs xs' u)

on_chan-absent :
    (f : Chan → Option Chan) (cs : List Chan) (i : ℕ)
    → get_elem? cs i ≡ none
    → on_chan f cs i ≡ none
unfolding on_chan
on_chan-absent f [] i h = refl
on_chan-absent f (c ∷ cs) zero h = cc
on_chan-absent f (c ∷ cs) (suc i) h = ground (arith, on_chan-absent f cs i h)

pub on_chan-none :
    (f : Chan → Option Chan) (cs : List Chan) (i : ℕ) (c : Chan)
    → get_elem? cs i ≡ some c
    → f c ≡ none
    → on_chan f cs i ≡ none
unfolding on_chan
on_chan-none f [] i c h e = refl
on_chan-none f (x ∷ xs) zero c h e = ground arith
on_chan-none f (x ∷ xs) (suc i) c h e = ground (arith, on_chan-none f xs i c)

-- An operation that went through met a channel.
pub on_chan-some :
    (f : Chan → Option Chan) (cs cs' : List Chan) (i : ℕ)
    → on_chan f cs i ≡ some cs'
    → (c c' : Chan) × (get_elem? cs i ≡ some c)
      × (f c ≡ some c')
      × Updated (λ _. c') (λ j. i == j) cs cs'
on_chan-some f cs cs' i h = elim (Option-cases (get_elem? cs i)) [
  | inl missing ↦ cc (on_chan-absent f cs i missing)
  | inr (c, e) ↦ elim (Option-cases (f c)) [
    | inl stuck ↦ cc (on_chan-none f cs i c e stuck)
    | inr (c', q) ↦
        let (cs₁, r, u) = on_chan-Updated f (λ _. c') cs i c e q in
        (c, c', e, q, λ j. ground (arith, u j))
  ]
]

-- What a delivery does to an open channel: the payload goes to the end of the buffer if there is room.
abbrev pub delivered : Text → Chan → Chan
delivered p c =
    if ltb (length c.buffer) buffer_size then record c { buffer = c.buffer ++ p ∷ [] } else c

abbrev pub is_open_at : List Chan → ℕ → Bool
is_open_at cs i = elim (get_elem? cs i) [ none ↦ false | some c ↦ not c.closed ]

abbrev AllOpen : List ℕ → List Chan → Type 0
AllOpen is cs = All (λ i. is_open_at cs i ≡ true) is

pub offer-closed :
    (p : Text) (cs : List Chan) (i : ℕ) → is_open_at cs i ≡ false → on_chan (offer p) cs i ≡ none
unfolding on_chan offer
offer-closed p [] i h = refl
offer-closed p (c ∷ cs) zero h = ground arith
offer-closed p (c ∷ cs) (suc i) h = ground (arith, offer-closed p cs i h)

pub offer-open :
    (p : Text) (cs : List Chan) (i : ℕ)
    → is_open_at cs i ≡ true
    → (cs' : List Chan) × (on_chan (offer p) cs i ≡ some cs')
      × Updated (delivered p) (λ j. i == j) cs cs'
offer-open p cs i h = elim (Option-cases (get_elem? cs i)) [
  | inl missing ↦ absurd (ground arith)
  | inr (c, e) ↦ on_chan-Updated (offer p) (delivered p) cs i c e (unfold offer in ground arith)
]

AllOpen-Updated :
    (p : Text) (at : ℕ → Bool) (is : List ℕ) (cs cs' : List Chan)
    → Updated (delivered p) at cs cs'
    → AllOpen is cs
    → AllOpen is cs'
AllOpen-Updated p at [] cs cs' u h = tt
AllOpen-Updated p at (i ∷ is) cs cs' u h =
    (ground (arith, u i), AllOpen-Updated p at is cs cs' u h.1)

-- Offering a payload to distinct open channels delivers it to each of these and to no other.
pub offer_all-Updated :
    (p : Text) (is : List ℕ) (cs : List Chan)
    → IsDistinct is
    → AllOpen is cs
    → (cs' : List Chan) × (offer_all p is cs ≡ some cs')
      × Updated (delivered p) (λ j. contains j is) cs cs'
unfolding offer_all contains
offer_all-Updated p [] cs d h = (cs, refl, λ j. refl)
offer_all-Updated p (i ∷ is) cs d h =
    let (cs₁, r₁, u₁) = offer-open p cs i h.0 in
    let (cs₂, r₂, u₂) =
      offer_all-Updated p is cs₁ d.1 (AllOpen-Updated p (λ j. i == j) is cs cs₁ u₁ h.1) in
    (cs₂, ground arith, λ j. ground (arith, u₁ j, u₂ j))

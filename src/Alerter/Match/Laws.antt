-- ===== src/Alerter/Match/Laws.antt =====
-- internal/alerter/service.go: what the two matching functions decide.
use signalstream.Common.{
  ◌≡◌, ◌↔◌, ◌⊎◌, inl, inr, refl, Bool, true, false, not, ◌&&◌, List, [], ◌∷◌, ◌++◌, Text, In, All,
  ap, text_eq, text_eq_iff, is_empty, Bool-cases, if◌then◌else◌, arith,
}
use signalstream.Database.{Strategy, Float32, Float64}
use signalstream.Platform.{NormalizedEvent}
use signalstream.Alerter.Match.{
  FloatOps, ScoredResult, found_in, shares_ticker, matches_simple_filters, find_event_match,
}

pub found_in_iff : (a : Text) (xs : List Text) → (found_in a xs ≡ true) ↔ In a xs
unfolding found_in
found_in_iff a [] = ground arith
found_in_iff a (x ∷ xs) = ground (arith, text_eq_iff a x, found_in_iff a xs)

-- A ticker that the two lists share.
abbrev pub Shared : List Text → List Text → Type 0
Shared ts us = (t : Text) × In t ts × In t us

shares_ticker_sound : (ts us : List Text) → shares_ticker ts us ≡ true → Shared ts us
unfolding shares_ticker
shares_ticker_sound [] us h = cc
shares_ticker_sound (t ∷ ts) us h = elim (Bool-cases (found_in t us)) [
  | inl here ↦ (t, inl refl, (found_in_iff t us).0 here)
  | inr other ↦ let (u, m, n) = shares_ticker_sound ts us (ground arith) in (u, inr m, n)
]

shares_ticker_complete :
    (ts us : List Text) (t : Text) → In t ts → In t us → shares_ticker ts us ≡ true
unfolding shares_ticker
shares_ticker_complete [] us t h k = absurd h
shares_ticker_complete (x ∷ ts) us t (inl e) k =
    ground (arith, found_in_iff t us, found_in_iff x us)
shares_ticker_complete (x ∷ ts) us t (inr h) k = ground (arith, shares_ticker_complete ts us t h k)

pub shares_ticker_iff : (ts us : List Text) → (shares_ticker ts us ≡ true) ↔ Shared ts us
shares_ticker_iff ts us = (shares_ticker_sound ts us, λ s. shares_ticker_complete ts us s.0 s.1 s.2)

is_empty_iff : (xs : List Text) → (is_empty xs ≡ true) ↔ (xs ≡ [])
is_empty_iff [] = ground arith
is_empty_iff (x ∷ xs) = ground arith

source_test :
    (a : Text) (xs : List Text)
    → ((not (is_empty xs) && not (found_in a xs)) ≡ false) ↔ ((xs ≡ []) ⊎ In a xs)
source_test a [] = (λ _. inl refl, λ _. refl)
source_test a (x ∷ xs) = ground (arith, found_in_iff a (x ∷ xs))

ticker_test :
    (ts us : List Text)
    → ((if is_empty us then true else if is_empty ts then false else shares_ticker ts us) ≡ true)
      ↔ ((us ≡ []) ⊎ Shared ts us)
ticker_test ts [] = (λ _. inl refl, λ _. refl)
ticker_test [] (u ∷ us) = (λ h. cc, λ s. elim s [ inl e ↦ cc | inr s ↦ absurd s.1 ])
ticker_test (t ∷ ts) (u ∷ us) =
    let both = shares_ticker_iff (t ∷ ts) (u ∷ us) in
    (λ h. inr (both.0 h), λ s. elim s [ inl e ↦ cc | inr s ↦ both.1 s ])

-- The source and the ticker condition, stated with membership.
abbrev pub Passes : NormalizedEvent → Strategy → Type 0
Passes event strategy =
    ((strategy.source ≡ []) ⊎ In event.source strategy.source)
    × ((strategy.tickers ≡ []) ⊎ Shared event.tickers strategy.tickers)

-- An event passes a strategy's filters exactly when the strategy names no source or the event's
-- source is among those it names, and it names no ticker or shares one with the event.
pub matches_simple_filters_iff :
    (event : NormalizedEvent) (strategy : Strategy)
    → (matches_simple_filters event strategy ≡ true) ↔ Passes event strategy
unfolding matches_simple_filters
matches_simple_filters_iff event strategy =
    ground
      (arith, source_test event.source strategy.source, ticker_test event.tickers strategy.tickers)

module _ (ops : FloatOps) (event_uuid : Text) (threshold : Float64) where
  -- A result for the event's own point, with a score of at least the threshold.
  abbrev pub IsHit : ScoredResult → Type 0
  IsHit r = (r.point_id ≡ event_uuid) × (ops.at_least (ops.widen r.score) threshold ≡ true)

  -- The first hit of a list, with its score.
  pub record FirstHit (results : List ScoredResult) (score : Float32) : Type 0 where
    pub before : List ScoredResult
    pub hit : ScoredResult
    pub after : List ScoredResult
    pub split : results ≡ before ++ hit ∷ after
    pub none_before : All (λ r. ¬ IsHit r) before
    pub is_hit : IsHit hit
    pub scored : score ≡ hit.score

  abbrev test : ScoredResult → Bool
  test r = text_eq r.point_id event_uuid && ops.at_least (ops.widen r.score) threshold

  test_iff : (r : ScoredResult) → (test r ≡ true) ↔ IsHit r
  test_iff r = ground (arith, text_eq_iff r.point_id event_uuid)

  -- What a search for the event's match answers.
  abbrev pub Answers : List ScoredResult → Float32 × Bool → Type 0
  Answers results (score, true) = FirstHit results score
  Answers results (score, false) = (score ≡ 0) × All (λ r. ¬ IsHit r) results

  Answers-cons :
      (r : ScoredResult) (rs : List ScoredResult) (a : Float32 × Bool)
      → ¬ IsHit r
      → Answers rs a
      → Answers (r ∷ rs) a
  Answers-cons r rs (score, true) miss first = record {
    before = r ∷ first.before;
    hit = first.hit;
    after = first.after;
    split = ap (λ l. r ∷ l) first.split;
    none_before = (miss, first.none_before);
    is_hit = first.is_hit;
    scored = first.scored;
  }
  Answers-cons r rs (score, false) miss (z, all) = (z, (miss, all))

  -- A match is reported exactly with the score of the first result that is the event's own point and
  -- reaches the threshold; if none does, the answer is 0 and false.
  pub find_event_match-Answers :
      (results : List ScoredResult)
      → Answers results (find_event_match ops event_uuid results threshold)
  unfolding find_event_match
  find_event_match-Answers [] = (refl, tt)
  find_event_match-Answers (r ∷ rs) = elim (Bool-cases (test r)) [
    | inl hit ↦ rw hit (record {
      before = [];
      hit = r;
      after = rs;
      split = refl;
      none_before = tt;
      is_hit = (test_iff r).0 hit;
      scored = refl;
    })
    | inr miss ↦
        rw miss (Answers-cons r rs _ (λ h. cc ((test_iff r).1 h)) (find_event_match-Answers rs))
  ]

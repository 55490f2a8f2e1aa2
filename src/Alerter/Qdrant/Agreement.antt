-- ===== src/Alerter/Qdrant/Agreement.antt =====
-- internal/alerter/service.go: the filter sent to Qdrant, evaluated on the event's own point, beside
-- the local filters.
use signalstream.Common.{
  ℕ, ◌≡◌, inl, inr, refl, ap, Bool, true, false, ◌&&◌, ◌||◌, List, [], ◌∷◌, Option, none, some,
  Text, codes, In, text_eq, is_empty, Bool-cases, Bool-eq_of_iff, if◌then◌else◌, arith,
}
use signalstream.Database.{Strategy}
use signalstream.Platform.{NormalizedEvent}
use signalstream.Alerter.Match.{found_in, shares_ticker, matches_simple_filters}
use signalstream.Alerter.Match.Laws.{found_in_iff, shares_ticker_iff, Shared}
use signalstream.Alerter.Qdrant.{
  Filter, filter, Condition, keyword, nested, Conditions, nil, cons, snoc, keywords_from, add_group,
  add_clause, build_qdrant_filter, Value, string, strings, Payload, point_payload,
}

abbrev pub lookup_value : Text → Payload → Option Value
lookup_value key [] = none
lookup_value key ((k, v) ∷ p) = if text_eq k key then some v else lookup_value key p

-- A keyword condition holds of a string that equals the keyword and of a list that contains it.
abbrev pub has_keyword : Option Value → Text → Bool
has_keyword none v = false
has_keyword (some (string s)) v = text_eq s v
has_keyword (some (strings ss)) v = found_in v ss

abbrev pub every : (Condition → Bool) → Conditions → Bool
every holds nil = true
every holds (cons c cs) = holds c && every holds cs

abbrev pub some_of : (Condition → Bool) → Conditions → Bool
some_of holds nil = false
some_of holds (cons c cs) = holds c || some_of holds cs

-- The documented meaning of filters: all of `must`, and one of `should` if it lists any.
pub record FilterSemantics : Type 0 where
  pub accepts : Filter → Payload → Bool
  pub holds : Payload → Condition → Bool
  pub accepts_must :
      (must : Conditions) (p : Payload) → accepts (filter must nil) p ≡ every (holds p) must
  pub accepts_should :
      (c : Condition) (cs : Conditions) (p : Payload)
      → accepts (filter nil (cons c cs)) p ≡ some_of (holds p) (cons c cs)
  pub holds_keyword :
      (key value : Text) (p : Payload)
      → holds p (keyword key value) ≡ has_keyword (lookup_value key p) value
  pub holds_nested : (f : Filter) (p : Payload) → holds p (nested f) ≡ accepts f p

every-snoc :
    (h : Condition → Bool) (cs : Conditions) (c : Condition)
    → every h (snoc cs c) ≡ (every h cs && h c)
unfolding snoc
every-snoc h nil c = ground arith
every-snoc h (cons d ds) c = ground (arith, every-snoc h ds c)

some_of-snoc :
    (h : Condition → Bool) (cs : Conditions) (c : Condition)
    → some_of h (snoc cs c) ≡ (some_of h cs || h c)
unfolding snoc
some_of-snoc h nil c = ground arith
some_of-snoc h (cons d ds) c = ground (arith, some_of-snoc h ds c)

keywords_from-cons :
    (key : Text) (c : Condition) (cs : Conditions) (vs : List Text)
    → keywords_from key (cons c cs) vs ≡ cons c (keywords_from key cs vs)
unfolding keywords_from snoc
keywords_from-cons key c cs [] = refl
keywords_from-cons key c cs (v ∷ vs) = keywords_from-cons key c (snoc cs (keyword key v)) vs

-- Some value of the list is a keyword of the payload's field.
abbrev any_keyword : Option Value → List Text → Bool
any_keyword field [] = false
any_keyword field (v ∷ vs) = has_keyword field v || any_keyword field vs

module _ (sem : FilterSemantics) (p : Payload) where
  some_of-keywords :
      (key : Text) (cs : Conditions) (vs : List Text)
      → some_of (sem.holds p) (keywords_from key cs vs)
        ≡ (some_of (sem.holds p) cs || any_keyword (lookup_value key p) vs)
  unfolding keywords_from
  some_of-keywords key cs [] = ground arith
  some_of-keywords key cs (v ∷ vs) = ground (
    arith,
    some_of-keywords key (snoc cs (keyword key v)) vs,
    some_of-snoc (sem.holds p) cs (keyword key v),
    sem.holds_keyword key v p,
  )

  every-add_group :
      (must : Conditions) (c : Condition) (cs : Conditions)
      → every (sem.holds p) (add_group must (cons c cs))
        ≡ (every (sem.holds p) must && some_of (sem.holds p) (cons c cs))
  unfolding add_group
  every-add_group must c nil = ground (arith, every-snoc (sem.holds p) must c)
  every-add_group must c (cons d ds) =
      let group = filter nil (cons c (cons d ds)) in
      ground (
        arith,
        every-snoc (sem.holds p) must (nested group),
        sem.holds_nested group p,
        sem.accepts_should c (cons d ds) p,
      )

  every-add_clause :
      (key : Text) (vs : List Text) (must : Conditions)
      → every (sem.holds p) (add_clause key vs must)
        ≡ (every (sem.holds p) must && (is_empty vs || any_keyword (lookup_value key p) vs))
  unfolding add_clause keywords_from snoc
  every-add_clause key [] must = ground arith
  every-add_clause key (v ∷ vs) must = rw (keywords_from-cons key (keyword key v) nil vs) (
      ground (
        arith,
        every-add_group must (keyword key v) (keywords_from key nil vs),
        some_of-keywords key nil vs,
        sem.holds_keyword key v p,
      ))

any_keyword-string : (s : Text) (vs : List Text) → any_keyword (some (string s)) vs ≡ found_in s vs
unfolding found_in
any_keyword-string s [] = refl
any_keyword-string s (v ∷ vs) = ground (arith, any_keyword-string s vs)

any_keyword-none : (vs : List Text) → any_keyword none vs ≡ false
any_keyword-none [] = refl
any_keyword-none (v ∷ vs) = any_keyword-none vs

any_keyword_sound : (ts us : List Text) → any_keyword (some (strings ts)) us ≡ true → Shared ts us
any_keyword_sound ts [] h = cc
any_keyword_sound ts (u ∷ us) h = elim (Bool-cases (found_in u ts)) [
  | inl here ↦ (u, (found_in_iff u ts).0 here, inl refl)
  | inr other ↦ let (t, m, n) = any_keyword_sound ts us (ground arith) in (t, m, inr n)
]

any_keyword_complete :
    (ts us : List Text) (t : Text) → In t ts → In t us → any_keyword (some (strings ts)) us ≡ true
any_keyword_complete ts [] t m n = absurd n
any_keyword_complete ts (u ∷ us) t m (inl e) = ground (arith, found_in_iff t ts, found_in_iff u ts)
any_keyword_complete ts (u ∷ us) t m (inr n) = ground (arith, any_keyword_complete ts us t m n)

any_keyword-strings : (ts us : List Text) → any_keyword (some (strings ts)) us ≡ shares_ticker ts us
any_keyword-strings ts us =
    let both = shares_ticker_iff ts us in
    Bool-eq_of_iff _ _ (λ h. both.1 (any_keyword_sound ts us h))
      (λ h. let (t, m, n) = both.0 h in any_keyword_complete ts us t m n)

module _ (rfc3339 : ℕ → Text) (event : NormalizedEvent) where
  abbrev payload : Payload
  payload = point_payload rfc3339 event

  lookup-source : lookup_value (codes "source") payload ≡ some (string event.source)
  unfolding point_payload text_eq
  lookup-source = ground arith

  any_keyword-tickers :
      (us : List Text)
      → any_keyword (lookup_value (codes "tickers") payload) us
        ≡ (if is_empty event.tickers then false else shares_ticker event.tickers us)
  unfolding point_payload text_eq
  any_keyword-tickers us = elim (Bool-cases (is_empty event.tickers)) [
    | inl bare ↦ rw bare (any_keyword-none us)
    | inr given ↦ rw given (any_keyword-strings event.tickers us)
  ]

  -- With filters evaluated as it documents, Qdrant accepts the point of an event under the filter of a strategy exactly when the event passes
  -- the local filters: the local test drops no event that the search could have found, and lets none
  -- through whose own point the search would leave out.
  pub build_qdrant_filter-agrees :
      (sem : FilterSemantics) (strategy : Strategy)
      → sem.accepts
          (build_qdrant_filter strategy.source strategy.tickers)
          (point_payload rfc3339 event)
        ≡ matches_simple_filters event strategy
  unfolding build_qdrant_filter matches_simple_filters
  build_qdrant_filter-agrees sem strategy =
      let sources = add_clause (codes "source") strategy.source nil in
      let must = add_clause (codes "tickers") strategy.tickers sources in
      ground (
        arith,
        sem.accepts_must must payload,
        every-add_clause sem payload (codes "tickers") strategy.tickers sources,
        every-add_clause sem payload (codes "source") strategy.source nil,
        ap (λ field. any_keyword field strategy.source) lookup-source,
        any_keyword-string event.source strategy.source,
        any_keyword-tickers strategy.tickers,
      )

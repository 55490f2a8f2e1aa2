-- ===== src/Sec/Digits.antt =====
-- internal/sec/cik_map.go: the keys of the map, as `strconv.Itoa` prints them.
use signalstream.Common.{
  ℕ, zero, suc, ◌+◌, ◌/◌, ◌%◌, ◌<◌, ◌≡◌, ◌≢◌, refl, subst, sym, All, inl, inr, List, [], ◌∷◌, none,
  Result, ok, err, Text, text_eq, text_eq_iff, itoa, itoa_ℤ, digits_from, ◌==◌, Bool-cases, arith,
}
use signalstream.Common.Int.{ℤ, pos, negsuc}
use signalstream.Sec.{CikMap, CikEntry, insert, fill, get_cik_map, ticker_of}

-- A text of two bytes or more that begins with the digit 0.
abbrev pub ZeroPadded : Text → Type 0
ZeroPadded [] = ⊥
ZeroPadded (c ∷ []) = ⊥
ZeroPadded (c ∷ d ∷ t) = c ≡ b'0'

not-ZeroPadded-cons : (x : ℕ) (acc : Text) → x ≢ b'0' → ¬ ZeroPadded (x ∷ acc)
not-ZeroPadded-cons x [] ne h = h
not-ZeroPadded-cons x (d ∷ t) ne h = ne h

digits_from-not-ZeroPadded :
    (fuel n : ℕ) (acc : Text) → 0 < n → n < fuel → ¬ ZeroPadded (digits_from fuel n acc)
unfolding digits_from
digits_from-not-ZeroPadded zero n acc p h = absurd (omega arith)
digits_from-not-ZeroPadded (suc fuel) n acc p h = elim (Bool-cases (n / 10 == 0)) [
  | inl last ↦ rw last (not-ZeroPadded-cons (n % 10 + b'0') acc (ground arith))
  | inr more ↦ rw more (
      digits_from-not-ZeroPadded fuel (n / 10) ((n % 10 + b'0') ∷ acc) (ground arith) (omega arith))
]

itoa-not-ZeroPadded : (n : ℕ) → ¬ ZeroPadded (itoa n)
unfolding itoa digits_from
itoa-not-ZeroPadded zero = λ h. h
itoa-not-ZeroPadded (suc n) =
    digits_from-not-ZeroPadded (suc (suc n)) (suc n) [] (omega arith) (omega arith)

itoa_ℤ-not-ZeroPadded : (z : ℤ) → ¬ ZeroPadded (itoa_ℤ z)
unfolding itoa_ℤ
itoa_ℤ-not-ZeroPadded (pos n) = itoa-not-ZeroPadded n
itoa_ℤ-not-ZeroPadded (negsuc n) = not-ZeroPadded-cons b'-' (itoa (suc n)) (omega arith)

abbrev PlainKeys : CikMap → Type 0
PlainKeys m = All (λ entry. ¬ ZeroPadded entry.0) m

insert-PlainKeys :
    (k v : Text) (m : CikMap) → ¬ ZeroPadded k → PlainKeys m → PlainKeys (insert k v m)
unfolding insert
insert-PlainKeys k v [] p h = (p, tt)
insert-PlainKeys k v ((j, u) ∷ m) p h = elim (Bool-cases (text_eq j k)) [
  | inl same ↦ rw same h
  | inr other ↦ rw other (h.0, insert-PlainKeys k v m p h.1)
]

fill-PlainKeys : (m : CikMap) (entries : List CikEntry) → PlainKeys m → PlainKeys (fill m entries)
unfolding fill
fill-PlainKeys m [] h = h
fill-PlainKeys m (entry ∷ rest) h =
    fill-PlainKeys (insert (itoa_ℤ entry.cik) entry.ticker m) rest
      (insert-PlainKeys (itoa_ℤ entry.cik) entry.ticker m (itoa_ℤ-not-ZeroPadded entry.cik) h)

ticker_of-none : (m : CikMap) (cik : Text) → ZeroPadded cik → PlainKeys m → ticker_of m cik ≡ none
unfolding ticker_of
ticker_of-none [] cik p h = refl
ticker_of-none ((j, v) ∷ m) cik p h = elim (Bool-cases (text_eq j cik)) [
  | inl same ↦ absurd (h.0 (subst ZeroPadded (sym ((text_eq_iff j cik).0 same)) p))
  | inr other ↦ rw other (ticker_of-none m cik p h.1)
]

-- A CIK that is padded with zeros is never found, whatever the downloaded entries are.
pub ticker_of-ZeroPadded :
    (reply : Result (List CikEntry)) (cik : Text)
    → ZeroPadded cik
    → ticker_of (get_cik_map reply) cik ≡ none
unfolding get_cik_map
ticker_of-ZeroPadded (err e) cik p = ticker_of-none [] cik p tt
ticker_of-ZeroPadded (ok entries) cik p =
    ticker_of-none (fill [] entries) cik p (fill-PlainKeys [] entries tt)

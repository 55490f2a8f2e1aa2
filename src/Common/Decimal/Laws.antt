-- ===== src/Common/Decimal/Laws.antt =====
-- `strconv.Atoi` on what `strconv.Itoa` prints.
use Prim.Native.Nat.{ℕ, zero, suc, ◌+◌, ◌-◌, ◌*◌, ◌/◌, ◌%◌, ◌^◌, ◌<◌}
use mathlib.Core.Path.{◌≡◌, ap, ◌∙◌}
use mathlib.Core.Logic.{◌≢◌, inl, inr}
use mathlib.Core.Bool.{false, ◌||◌}
use mathlib.Core.Option.{some}
use mathlib.Core.List.{[], ◌∷◌}
use native.Mathlib.Omega.{arith}
use signalstream.Common.Tests.{ltb, ◌==◌, Bool-cases}
use signalstream.Common.Bytes.{Text}
use signalstream.Common.Int.{ℤ, pos, negsuc}
use signalstream.Common.Decimal.{
  digits_from, itoa, itoa_ℤ, parse_digits, parse_number, to_positive, to_negative, atoi,
}

parse-digit :
    (d a b : ℕ) (t : Text)
    → d < 10
    → a * 10 + d ≡ b
    → parse_digits ((d + b'0') ∷ t) a ≡ parse_digits t b
unfolding parse_digits
parse-digit d a b t h e =
    let small : ltb (d + b'0') b'0' || ltb b'9' (d + b'0') ≡ false = ground arith in
    let sum : a * 10 + (d + b'0' - b'0') ≡ b = omega arith in rw small (ap (parse_digits t) sum)

parse-digits_from :
    (fuel n : ℕ) (acc : Text)
    → n < fuel
    → parse_digits (digits_from fuel n acc) 0 ≡ parse_digits acc n
unfolding digits_from
parse-digits_from zero n acc h = absurd (omega arith)
parse-digits_from (suc fuel) n acc h = elim (Bool-cases (n / 10 == 0)) [
  | inl last ↦ rw last (parse-digit (n % 10) 0 n acc (omega arith) (ground arith))
  | inr more ↦ rw more (
      parse-digits_from fuel (n / 10) ((n % 10 + b'0') ∷ acc) (ground arith)
      ∙ parse-digit (n % 10) (n / 10) n acc (omega arith) (omega arith))
]

-- The text begins with a digit.
Numeric : Text → Type 0
Numeric [] = ⊥
Numeric (c ∷ t) = (c ≢ b'-') × (c ≢ b'+')

digits_from-Numeric : (fuel n : ℕ) (acc : Text) → n < fuel → Numeric (digits_from fuel n acc)
unfolding digits_from Numeric
digits_from-Numeric zero n acc h = absurd (omega arith)
digits_from-Numeric (suc fuel) n acc h = elim (Bool-cases (n / 10 == 0)) [
  | inl last ↦ rw last (λ e. omega arith, λ e. omega arith)
  | inr more ↦ rw more (digits_from-Numeric fuel (n / 10) ((n % 10 + b'0') ∷ acc) (ground arith))
]

parse_number-itoa : (n : ℕ) → parse_number (itoa n) ≡ some n
unfolding itoa Numeric parse_number parse_digits
parse_number-itoa n =
    go (itoa n) (digits_from-Numeric (suc n) n [] (omega arith))
      (parse-digits_from (suc n) n [] (omega arith))
  where
    go : (t : Text) → Numeric t → parse_digits t 0 ≡ parse_digits [] n → parse_number t ≡ some n
    go [] d e = absurd d
    go (c ∷ t) d e = e

atoi-Numeric : (t : Text) → Numeric t → atoi t ≡ to_positive (parse_number t)
unfolding atoi Numeric
atoi-Numeric [] d = absurd d
atoi-Numeric (c ∷ t) d = ground (arith, d.0, d.1)

-- An `int`.
unfoldable pub IsInt64 : ℤ → Type 0
IsInt64 (pos n) = n < 2 ^ 63
IsInt64 (negsuc n) = n < 2 ^ 63

-- `Atoi` reads back what `Itoa` prints, for every `int`, the negative ones included.
pub atoi-itoa_ℤ : (z : ℤ) → IsInt64 z → atoi (itoa_ℤ z) ≡ some z
unfolding itoa_ℤ IsInt64 atoi to_positive to_negative
atoi-itoa_ℤ (pos n) h =
    let digits = digits_from-Numeric (suc n) n [] (omega arith) in
    let read : atoi (itoa n) ≡ to_positive (some n) =
      atoi-Numeric (itoa n) (unfold itoa in digits) ∙ ap to_positive (parse_number-itoa n) in
    ground arith
atoi-itoa_ℤ (negsuc n) h = ground (arith, parse_number-itoa (suc n))

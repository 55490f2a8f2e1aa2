-- ===== src/Common/Decimal.antt =====
-- `strconv.Itoa` and the `%d` of `fmt`: the decimal digits of a number, most significant first; and
-- `strconv.Atoi`.
pub mod Laws
use Prim.Native.Nat.{ℕ, zero, suc, ◌+◌, ◌-◌, ◌*◌, ◌/◌, ◌%◌, ◌^◌}
use mathlib.Core.Bool.{◌||◌}
use mathlib.Core.Option.{Option, none, some}
use mathlib.Core.List.{[], ◌∷◌}
use signalstream.Common.Tests.{ltb, ◌==◌, if◌then◌else◌}
use signalstream.Common.Bytes.{Text}
use signalstream.Common.Int.{ℤ, pos, negsuc}

-- The digits of `n` in front of `acc`; every round drops one digit, so `n + 1` rounds suffice.
unfoldable pub digits_from : ℕ → ℕ → Text → Text
digits_from zero n acc = acc
digits_from (suc fuel) n acc =
    let out = (n % 10 + b'0') ∷ acc in
    let rest = digits_from fuel (n / 10) out in if n / 10 == 0 then out else rest

unfoldable pub itoa : ℕ → Text
itoa n = digits_from (suc n) n []

unfoldable pub itoa_ℤ : ℤ → Text
itoa_ℤ (pos n) = itoa n
itoa_ℤ (negsuc n) = b'-' ∷ itoa (suc n)

-- `strconv.Atoi`: an optional sign and digits, if the number is an `int`.
unfoldable pub parse_digits : Text → ℕ → Option ℕ
parse_digits [] acc = some acc
parse_digits (c ∷ t) acc =
    let rest = parse_digits t (acc * 10 + (c - b'0')) in
    if ltb c b'0' || ltb b'9' c then none else rest

-- At least one digit.
unfoldable pub parse_number : Text → Option ℕ
parse_number [] = none
parse_number (c ∷ t) = parse_digits (c ∷ t) 0

unfoldable pub to_positive : Option ℕ → Option ℤ
to_positive none = none
to_positive (some n) = if ltb n (2 ^ 63) then some (pos n) else none

unfoldable pub to_negative : Option ℕ → Option ℤ
to_negative none = none
to_negative (some zero) = some (pos 0)
to_negative (some (suc n)) = if ltb n (2 ^ 63) then some (negsuc n) else none

unfoldable pub atoi : Text → Option ℤ
atoi [] = none
atoi (c ∷ t) =
    if c == b'-'
    then to_negative (parse_number t)
    else if c == b'+'
    then to_positive (parse_number t)
    else to_positive (parse_number (c ∷ t))

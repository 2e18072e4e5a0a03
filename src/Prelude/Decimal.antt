-- ===== src/Prelude/Decimal.antt =====
-- Decimal numerals: `strconv.Itoa`, `strconv.FormatInt`, `strconv.ParseInt` and `strconv.Atoi`.
use Prim.Native.Nat.{ℕ, zero, suc, ◌+◌, ◌-◌, ◌*◌, ◌/◌, ◌%◌, ◌^◌, ◌<◌}
use mathlib.Core.Path.{◌≡◌, ap, ◌∙◌}
use mathlib.Core.Logic.{◌≢◌, inl, inr}
use mathlib.Core.List.{[], ◌∷◌, ◌++◌}
use mathlib.Core.Option.{Option, none, some}
use native.Mathlib.Omega.{arith}
use property_search.Prelude.Tests.{ltb, ◌==◌, if◌then◌else◌, Bool-cases}
use property_search.Prelude.Texts.{Text, is_digit}
use property_search.Prelude.Int.{ℤ, pos, negsuc}

-- The digits of `n`, with fuel: `n + 1` is enough, since each round divides by ten.
unfoldable pub itoa_fuel : ℕ → ℕ → Text
itoa_fuel zero n = []
itoa_fuel (suc fuel) n =
    let front = itoa_fuel fuel (n / 10) in
    if ltb n 10 then (48 + n) ∷ [] else front ++ (48 + n % 10) ∷ []

unfoldable pub itoa : ℕ → Text
unfolding itoa_fuel
itoa n = itoa_fuel (suc n) n

unfoldable pub format_int : ℤ → Text
unfolding itoa
format_int (pos n) = itoa n
format_int (negsuc n) = b'-' ∷ itoa (suc n)

-- The value of a text of digits, read from the left after `acc`; `none` at any other character.
unfoldable pub digits_value : ℕ → Text → Option ℕ
digits_value acc [] = some acc
digits_value acc (c ∷ s) =
    let rest = digits_value (acc * 10 + (c - 48)) s in if is_digit c then rest else none

abbrev pub int64_mod : ℕ
int64_mod = 2 ^ 63

abbrev in_range : ℕ → Option ℕ → Option ℕ
in_range limit none = none
in_range limit (some n) = if ltb n limit then some n else none

-- `ParseInt(s, 10, 64)` on a text without a sign.
unfoldable pub parse_digits : Text → Option ℕ
unfolding digits_value
parse_digits [] = none
parse_digits (c ∷ s) = in_range int64_mod (digits_value 0 (c ∷ s))

abbrev negative : Option ℕ → Option ℤ
negative none = none
negative (some zero) = some (pos 0)
negative (some (suc n)) = some (negsuc n)

abbrev positive : Option ℕ → Option ℤ
positive none = none
positive (some n) = some (pos n)

abbrev parse_negative : Text → Option ℤ
parse_negative [] = none
parse_negative (c ∷ s) = negative (in_range (int64_mod + 1) (digits_value 0 (c ∷ s)))

-- `ParseInt(s, 10, 64)` and `Atoi(s)`
unfoldable pub parse_int : Text → Option ℤ
unfolding parse_digits
parse_int [] = none
parse_int (c ∷ s) =
    if c == b'-'
    then parse_negative s
    else if c == b'+'
    then positive (parse_digits s)
    else positive (parse_digits (c ∷ s))

digits_value-snoc :
    (s : Text) (acc d v : ℕ)
    → d < 10
    → digits_value acc s ≡ some v
    → digits_value acc (s ++ (48 + d) ∷ []) ≡ some (v * 10 + d)
unfolding digits_value
digits_value-snoc [] acc d v h e = ground arith
digits_value-snoc (c ∷ s) acc d v h e =
    ground (arith, digits_value-snoc s (acc * 10 + (c - 48)) d v h)

digits_value-itoa_fuel : (fuel n : ℕ) → n < fuel → digits_value 0 (itoa_fuel fuel n) ≡ some n
unfolding itoa_fuel
digits_value-itoa_fuel zero n h = elim h [ ]
digits_value-itoa_fuel (suc fuel) n h = elim (Bool-cases (ltb n 10)) [
  | inl small ↦ rw small (unfold digits_value in ground arith)
  | inr large ↦ rw large (
      digits_value-snoc (itoa_fuel fuel (n / 10)) 0 (n % 10) (n / 10) (omega arith)
        (digits_value-itoa_fuel fuel (n / 10) (ground arith))
      ∙ ap some (omega arith))
]

-- The digits of a number are read back as the number.
pub digits_value-itoa : (n : ℕ) → digits_value 0 (itoa n) ≡ some n
unfolding itoa
digits_value-itoa n = digits_value-itoa_fuel (suc n) n (omega arith)

snoc-non_empty : (s : Text) (c : ℕ) → s ++ c ∷ [] ≢ []
snoc-non_empty [] c = ground arith
snoc-non_empty (x ∷ s) c = ground arith

-- A numeral has a digit.
pub itoa-non_empty : (n : ℕ) → itoa n ≢ []
unfolding itoa
itoa-non_empty n = ground (arith, snoc-non_empty (itoa_fuel n (n / 10)) (48 + n % 10))

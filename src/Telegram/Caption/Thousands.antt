-- ===== src/Telegram/Caption/Thousands.antt =====
-- A price as the card shows it.
use property_search.Prelude.{
  itoa-non_empty, ℕ, ◌+◌, ◌-◌, ◌<◌, ◌*◌, Text, ◌≡◌, ◌≢◌, refl, Bool, true, false, ◌&&◌, arith, [],
  ◌∷◌, some, pos, itoa, digits_value, digits_value-itoa, parse_digits, is_digit, int64_mod, ==_iff,
}
use property_search.Parser.Amount.{amount_run, find_number, strip_separators, parse_amount}
use property_search.Telegram.Caption.{with_dots, format_thousands}

abbrev all_digits : Text → Bool
all_digits [] = true
all_digits (c ∷ s) = is_digit c && all_digits s

digits_value-all_digits : (t : Text) (acc n : ℕ) → digits_value acc t ≡ some n → all_digits t ≡ true
unfolding digits_value
digits_value-all_digits [] acc n h = refl
digits_value-all_digits (c ∷ s) acc n h =
    ground (arith, digits_value-all_digits s (acc * 10 + (c - 48)) n)

strip_separators-with_dots :
    (first : Bool) (s : Text) → all_digits s ≡ true → strip_separators (with_dots first s) ≡ s
unfolding strip_separators with_dots
strip_separators-with_dots first [] h = refl
strip_separators-with_dots first (c ∷ s) h =
    ground (arith, strip_separators-with_dots false s, ==_iff c b'.', ==_iff c b',')

amount_run-with_dots :
    (first : Bool) (s : Text)
    → all_digits s ≡ true
    → amount_run (with_dots first s) ≡ with_dots first s
unfolding amount_run with_dots
amount_run-with_dots first [] h = refl
amount_run-with_dots first (c ∷ s) h = ground (arith, amount_run-with_dots false s)

parse_amount-with_dots :
    (n : ℕ) (t : Text)
    → digits_value 0 t ≡ some n
    → t ≢ []
    → n < int64_mod
    → parse_amount (with_dots true t) ≡ some n
unfolding parse_amount find_number with_dots parse_digits strip_separators
parse_amount-with_dots n [] h ne lt = ground arith
parse_amount-with_dots n (c ∷ s) h ne lt = ground (
  arith,
  digits_value-all_digits (c ∷ s) 0 n h,
  amount_run-with_dots false s,
  strip_separators-with_dots false s,
  ==_iff c b'.',
  ==_iff c b',',
)

-- An amount that a card shows with its thousands separated by dots is read back by the parser of the
-- portal's prices as the same amount, for every amount of 63 bits.
pub parse_amount-format_thousands :
    (n : ℕ) → n < int64_mod → parse_amount (format_thousands (pos n)) ≡ some n
unfolding format_thousands
parse_amount-format_thousands n lt =
    parse_amount-with_dots n (itoa n) (digits_value-itoa n) (itoa-non_empty n) lt

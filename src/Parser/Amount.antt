-- ===== src/Parser/Amount.antt =====
-- `parsePrice` and `parseAmount`.
use property_search.Prelude.{
  ℕ, Text, Bool, ◌&&◌, ◌||◌, ◌==◌, [], ◌∷◌, Option, none, some, if◌then◌else◌, Casing, to_lower,
  to_upper, trim_space, contains, has_prefix, is_empty, codes, is_digit, parse_digits,
}

abbrev pub is_amount_char : ℕ → Bool
is_amount_char c = is_digit c || (c == b'.' || c == b',')

-- The longest run of digits, dots and commas at the front.
unfoldable pub amount_run : Text → Text
amount_run [] = []
amount_run (c ∷ s) = let rest = amount_run s in if is_amount_char c then c ∷ rest else []

-- `numberRe.FindString`: the first match of \d[\d.,]*, empty if there is none.
unfoldable pub find_number : Text → Text
unfolding amount_run
find_number [] = []
find_number (c ∷ s) = let rest = find_number s in if is_digit c then c ∷ amount_run s else rest

-- `strings.NewReplacer(".", "", ",", "")`
unfoldable pub strip_separators : Text → Text
strip_separators [] = []
strip_separators (c ∷ s) =
    let rest = strip_separators s in if c == b'.' || c == b',' then rest else c ∷ rest

unfoldable pub parse_amount : Text → Option ℕ
unfolding find_number strip_separators
parse_amount s =
    let match = find_number s in
    if is_empty match then none else parse_digits (strip_separators match)

-- \s
abbrev is_re_space : ℕ → Bool
is_re_space c = c == 32 || (c == 9 || (c == 10 || (c == 12 || c == 13)))

unfoldable pub skip_spaces : Text → Text
skip_spaces [] = []
skip_spaces (c ∷ s) = let rest = skip_spaces s in if is_re_space c then rest else c ∷ s

-- `desde` under (?i), which folds ſ (0x17f) with s.
abbrev is_desde : Text → Option Text
is_desde (a ∷ b ∷ c ∷ d ∷ e ∷ s) =
    if (a == b'd' || a == b'D')
      && ((b == b'e' || b == b'E')
          && ((c == b's' || (c == b'S' || c == 0x17f))
              && ((d == b'd' || d == b'D') && (e == b'e' || e == b'E'))))
    then some s
    else none
is_desde _ = none

abbrev after_desde : Text → Option Text → Text
after_desde whole none = whole
after_desde whole (some []) = whole
after_desde whole (some (c ∷ s)) = if is_re_space c then skip_spaces s else whole

-- `desdeRe.ReplaceAllString(s, "")`, of ^\s*desde\s+
unfoldable pub drop_desde : Text → Text
unfolding skip_spaces
drop_desde s = after_desde s (is_desde (skip_spaces s))

-- The currency of a price, `` if neither sign is there.
unfoldable pub currency_of : Casing → Text → Text
currency_of u s =
    if has_prefix (to_upper u s) (codes "USD")
    then codes "USD"
    else if has_prefix s (codes "$")
    then codes "ARS"
    else []

abbrev with_currency : Text → Option ℕ → Option ℕ × Text
with_currency currency none = (none, [])
with_currency currency (some n) = (some n, currency)

unfoldable pub parse_price : Casing → Text → Option ℕ × Text
unfolding drop_desde currency_of parse_amount
parse_price u raw =
    let s = trim_space raw in
    if is_empty s
    then (none, [])
    else if contains (to_lower u s) (codes "consultar")
    then (none, [])
    else (let t = trim_space (drop_desde s) in with_currency (currency_of u t) (parse_amount t))

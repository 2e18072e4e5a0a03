-- ===== src/Chat/Ratings/Buttons.antt =====
-- `ratingKeyboard` against what `handleCallback` reads of the data.
use property_search.Prelude.{
  itoa-non_empty, ℕ, zero, suc, ◌<◌, Text, ◌≡◌, ◌≢◌, refl, false, arith, [], ◌∷◌, ◌++◌, some, pos,
  itoa, codes, has_prefix, trim_prefix, drop_prefix, parse_int, parse_digits, digits_value,
  digits_value-itoa, int64_mod, ==_iff,
}
use property_search.Telegram.Caption.{rating_keyboard}
use property_search.Chat.Ratings.{parse_callback_data, callback_listing}

-- A positive numeral within 64 bits is read back.
parse_int-digits :
    (n : ℕ) (t : Text)
    → digits_value 0 t ≡ some n
    → t ≢ []
    → n < int64_mod
    → parse_int t ≡ some (pos n)
unfolding parse_int parse_digits
parse_int-digits n [] h ne lt = ground arith
parse_int-digits n (c ∷ s) h ne lt = ground arith

-- No numeral begins like the data of a button.
has_prefix-digits :
    (n : ℕ) (t : Text) → digits_value 0 t ≡ some n → has_prefix t (codes "d:") ≡ false
unfolding digits_value has_prefix
has_prefix-digits n [] h = refl
has_prefix-digits n (c ∷ s) h = ground (arith, ==_iff c b'd')

callback_listing-digits :
    (n : ℕ) (t : Text)
    → digits_value 0 t ≡ some n
    → t ≢ []
    → n < int64_mod
    → (callback_listing (codes "u:" ++ t) ≡ some (pos n))
      × (callback_listing (codes "d:" ++ t) ≡ some (pos n))
unfolding callback_listing trim_prefix drop_prefix has_prefix
callback_listing-digits n t h ne lt =
    (rw (has_prefix-digits n t h) (parse_int-digits n t h ne lt), parse_int-digits n t h ne lt)

-- The two buttons under a card carry the card's listing: pressing 👍 is read back as a like of it, and
-- 👎 as a dislike, for every id that a 64-bit key can have.
pub rating_keyboard-callback_listing :
    (n : ℕ) (up down : Text)
    → n < int64_mod
    → rating_keyboard n ≡ some (up, down)
    → (parse_callback_data up ≡ some 1)
      × (callback_listing up ≡ some (pos n))
      × (parse_callback_data down ≡ some 0)
      × (callback_listing down ≡ some (pos n))
unfolding rating_keyboard parse_callback_data callback_listing trim_prefix drop_prefix has_prefix
rating_keyboard-callback_listing zero up down lt h = ground arith
rating_keyboard-callback_listing (suc n) up down lt h = ground (
  arith,
  callback_listing-digits (suc n) (itoa (suc n)) (digits_value-itoa (suc n))
      (itoa-non_empty (suc n)) lt,
)

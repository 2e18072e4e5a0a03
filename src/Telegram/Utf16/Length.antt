-- ===== src/Telegram/Utf16/Length.antt =====
-- What the cut of a text to a number of code units keeps.
use property_search.Prelude.{
  ℕ, ◌+◌, ◌≤◌, ◌<◌, ◌⊎◌, Text, ◌≡◌, refl, arith, [], ◌∷◌, ◌++◌, trim_space, trim_left, reverse,
  reverse-cons,
}
use property_search.Telegram.Utf16.{units, utf16_len, fitting, truncate_utf16}

fitting-utf16_len :
    (limit used : ℕ) (s : Text) → used ≤ limit → used + utf16_len (fitting limit used s) ≤ limit
unfolding fitting utf16_len units
fitting-utf16_len limit used [] h = omega arith
fitting-utf16_len limit used (r ∷ s) h = ground (arith, fitting-utf16_len limit (used + units r) s)

pub utf16_len-append : (s t : Text) → utf16_len (s ++ t) ≡ utf16_len s + utf16_len t
unfolding utf16_len units
utf16_len-append [] t = omega arith
utf16_len-append (r ∷ s) t = omega (arith, utf16_len-append s t)

utf16_len-reverse : (s : Text) → utf16_len (reverse s) ≡ utf16_len s
unfolding utf16_len units
utf16_len-reverse [] = refl
utf16_len-reverse (r ∷ s) =
    rw (reverse-cons r s)
      (omega (arith, utf16_len-append (reverse s) (r ∷ []), utf16_len-reverse s))

utf16_len-trim_left : (s : Text) → utf16_len (trim_left s) ≤ utf16_len s
unfolding trim_left utf16_len
utf16_len-trim_left [] = omega arith
utf16_len-trim_left (r ∷ s) = ground (arith, utf16_len-trim_left s)

utf16_len-trim_space : (s : Text) → utf16_len (trim_space s) ≤ utf16_len s
unfolding trim_space
utf16_len-trim_space s = omega (
  arith,
  utf16_len-reverse (trim_left (reverse (trim_left s))),
  utf16_len-trim_left (reverse (trim_left s)),
  utf16_len-reverse (trim_left s),
  utf16_len-trim_left s,
)

-- A text cut to a number of UTF-16 code units has no more than that, and a text that fits is left as it
-- is.
pub truncate_utf16-utf16_len :
    (s : Text) (limit : ℕ)
    → (utf16_len (truncate_utf16 s limit) ≤ limit)
      × ((limit < utf16_len s) ⊎ (truncate_utf16 s limit ≡ s))
unfolding truncate_utf16
truncate_utf16-utf16_len s limit =
    ground
      (arith, utf16_len-trim_space (fitting limit 0 s), fitting-utf16_len limit 0 s (omega arith))

-- ===== src/Telegram/Utf16.antt =====
-- `UTF16Len` and `truncateUTF16`: Telegram's limits are in UTF-16 code units.
pub mod Length
use property_search.Prelude.{ℕ, Text, ◌+◌, List, [], ◌∷◌, ltb, leb, if◌then◌else◌, trim_space}

-- The code units of one code point.
unfoldable pub units : ℕ → ℕ
units r = if ltb 0xffff r then 2 else 1

unfoldable pub utf16_len : Text → ℕ
unfolding units
utf16_len [] = 0
utf16_len (r ∷ s) = units r + utf16_len s

-- The loop: the code points that fit behind `used` units.
unfoldable pub fitting : ℕ → ℕ → Text → Text
unfolding units
fitting limit used [] = []
fitting limit used (r ∷ s) =
    let rest = fitting limit (used + units r) s in
    if ltb limit (used + units r) then [] else r ∷ rest

unfoldable pub truncate_utf16 : Text → ℕ → Text
unfolding utf16_len fitting
truncate_utf16 s limit = if leb (utf16_len s) limit then s else trim_space (fitting limit 0 s)

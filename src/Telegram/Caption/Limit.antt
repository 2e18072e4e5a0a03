-- ===== src/Telegram/Caption/Limit.antt =====
-- The caption, Telegram's limit and the link.
use property_search.Prelude.{
  ◌+◌, ◌-◌, ◌≤◌, ◌<◌, Text, ◌≡◌, arith, [], ◌∷◌, ◌++◌, is_empty, append_assoc, Bool-cases, inl, inr,
}
use property_search.Model.{Float, Delivery}
use property_search.Telegram.Utf16.{units, utf16_len, truncate_utf16}
use property_search.Telegram.Utf16.Length.{utf16_len-append, truncate_utf16-utf16_len}
use property_search.Telegram.Caption.{caption, caption_over, caption_limit}

caption_over-utf16_len : (head url : Text) → utf16_len (caption_over head url) ≤ caption_limit
unfolding caption_over utf16_len units
caption_over-utf16_len head url = ground (
  arith,
  (truncate_utf16-utf16_len head (caption_limit - utf16_len url - 1)).0,
  (truncate_utf16-utf16_len url caption_limit).0,
  utf16_len-append (truncate_utf16 head (caption_limit - utf16_len url - 1)) (10 ∷ url),
)

-- The last part of a text.
abbrev pub EndsWith : Text → Text → Type 0
EndsWith url t = (front : Text) × (t ≡ front ++ url)

caption_over-EndsWith :
    (head url : Text) → utf16_len url + 1 < caption_limit → EndsWith url (caption_over head url)
unfolding caption_over
caption_over-EndsWith head url h =
    elim (Bool-cases (is_empty (truncate_utf16 head (caption_limit - utf16_len url - 1)))) [
      | inl e ↦ ([], ground arith)
      | inr e ↦ (
        truncate_utf16 head (caption_limit - utf16_len url - 1) ++ 10 ∷ [],
        ground (
          arith,
          append_assoc (truncate_utf16 head (caption_limit - utf16_len url - 1)) (10 ∷ []) url,
        ),
      )
    ]

-- Where the link and a line break fit in the 1024 code units that Telegram allows under a photo, a
-- card's text does not exceed them, and ends with the whole link, whatever had to be cut.
pub caption-fits :
    (format_float : Float → Text) (d : Delivery)
    → utf16_len d.item.canonical_url + 1 < caption_limit
    → (utf16_len (caption format_float d) ≤ caption_limit)
      × EndsWith d.item.canonical_url (caption format_float d)
unfolding caption
caption-fits format_float d h = (caption_over-utf16_len _ _, caption_over-EndsWith _ _ h)

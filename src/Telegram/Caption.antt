-- ===== src/Telegram/Caption.antt =====
-- The labels of model.go, `caption`, `ratingKeyboard` and `photoURLAllowed`.
pub mod Limit
pub mod Thousands
use property_search.Prelude.{
  ℕ, zero, suc, ℤ, pos, negsuc, Text, Bool, true, false, not, ◌&&◌, ◌||◌, ◌+◌, ◌-◌, ◌%◌, ◌==◌, ◌++◌,
  List, [], ◌∷◌, map, Option, none, some, ltb, leb, if◌then◌else◌, trim_space, is_empty, codes,
  join, itoa, format_int, any, length, Casing,
}
use property_search.Model.{Float, Listing, Delivery}
use property_search.Parser.{UrlOps}
use property_search.SearchUrl.{host_allowed}
use property_search.Telegram.Utf16.{utf16_len, truncate_utf16}

-- The loop of `formatThousands`: a dot in front of each digit, but the first, with a multiple of
-- three digits from it to the end.
unfoldable pub with_dots : Bool → Text → Text
with_dots first [] = []
with_dots first (c ∷ s) =
    let rest = c ∷ with_dots false s in
    if not first && length (c ∷ s) % 3 == 0 then b'.' ∷ rest else rest

-- `formatThousands`
unfoldable pub format_thousands : ℤ → Text
unfolding with_dots
format_thousands (pos n) = with_dots true (itoa n)
format_thousands (negsuc n) = b'-' ∷ with_dots true (itoa (suc n))

-- `PriceLabel`
unfoldable pub price_label : Listing → Text
unfolding format_thousands
price_label l = elim l.price_amount [
  | none ↦ []
  | some n ↦ trim_space (l.currency ++ (32 ∷ format_thousands n))
]

-- `ExpensasLabel`
unfoldable pub expensas_label : Listing → Text
unfolding format_thousands
expensas_label l = elim l.expensas [ none ↦ [] | some n ↦ codes "$ " ++ format_thousands n ]

abbrev or_else : Option Float → Option Float → Option Float
or_else none b = b
or_else (some a) b = some a

-- `SizeLabel`; `format_float` is `strconv.FormatFloat(v, 'f', -1, 64)`.
module _ (format_float : Float → Text) where
  abbrev surface_part : Text → Option Float → List Text
  surface_part basis none = []
  surface_part basis (some m2) =
      (format_float m2
        ++ (codes " m²" ++ (if is_empty basis then [] else 32 ∷ (basis ++ codes "."))))
      ∷ []

  abbrev rooms_part : Option ℤ → List Text
  rooms_part none = []
  rooms_part (some n) = (format_int n ++ codes " amb.") ∷ []

  unfoldable pub size_label : Listing → Text
  size_label l =
      join (codes " · ") (surface_part l.m2_basis (or_else l.m2_tot l.m2_cub) ++ rooms_part l.rooms)

-- `CaptionLimit`, `maxTitleOnCard`
abbrev pub caption_limit : ℕ
caption_limit = 1024

abbrev pub max_title_on_card : ℕ
max_title_on_card = 100

-- A line of the card, left out if it is empty.
abbrev line : Text → List Text
line t = if is_empty t then [] else t ∷ []

abbrev suffixed : Text → Text → Text
suffixed t suffix = if is_empty t then [] else t ++ suffix

-- The lines in front of the link.
unfoldable pub caption_head : (Float → Text) → Delivery → List Text
unfolding price_label size_label expensas_label
caption_head format_float d =
    let l = d.item in
    line d.header
    ++ ((if is_empty l.title then [] else truncate_utf16 l.title max_title_on_card ∷ [])
        ++ (line (price_label l)
            ++ (line (size_label format_float l)
                ++ (line (suffixed (expensas_label l) (codes " expensas"))
                    ++ (line l.location ++ map (λ r. codes "· " ++ r) d.reasons)))))

-- The text over the link, cut to what the link leaves.
unfoldable pub caption_over : Text → Text → Text
caption_over head url =
    if ltb (utf16_len url + 1) caption_limit
    then (let body = truncate_utf16 head (caption_limit - utf16_len url - 1) in
        if is_empty body then url else body ++ (10 ∷ url))
    else truncate_utf16 url caption_limit

-- `caption`
unfoldable pub caption : (Float → Text) → Delivery → Text
unfolding caption_head caption_over
caption format_float d =
    caption_over (join (10 ∷ []) (caption_head format_float d)) d.item.canonical_url

-- The callback data of the two buttons of `ratingKeyboard`; no keyboard for the id 0.
unfoldable pub rating_keyboard : ℕ → Option (Text × Text)
rating_keyboard zero = none
rating_keyboard (suc n) = some (codes "u:" ++ itoa (suc n), codes "d:" ++ itoa (suc n))

abbrev pub photo_hosts : List Text
photo_hosts = codes "zonapropcdn.com" ∷ codes "zonaprop.com.ar" ∷ []

-- `photoURLAllowed`
unfoldable pub photo_url_allowed : UrlOps → Casing → Text → Bool
photo_url_allowed net u raw = any (host_allowed net u raw) photo_hosts

-- ===== src/Parser/Page.antt =====
-- `ParseWithStats`, `listingFromCard` and what they read of a card.
pub mod Counters
use property_search.Prelude.{
  ℕ, ℤ, pos, suc, zero, Text, Bool, true, false, not, ◌&&◌, ◌||◌, ◌+◌, ◌++◌, List, [], ◌∷◌, map,
  Option, none, some, ltb, leb, ◌==◌, if◌then◌else◌, Casing, to_lower, trim_space, contains,
  is_empty, codes, text_eq, is_space, length, take,
}
use property_search.Model.{Float, Listing}
use property_search.Parser.Amount.{find_number, parse_amount, parse_price}
use property_search.Parser.Place.{UrlOps, operation_of, operation_for, origin_of, canonical}

-- What goquery reads of a card: attributes as given, texts as `Selection.Text` returns them.
pub record Card : Type 0 where
  pub posting_type : Text
  pub data_id : Text
  pub to_posting : Text
  pub price : Text
  pub location : Text
  pub expensas : Text
  pub description : Text
  pub gallery_alt : Text
  pub gallery_src : Text
  pub gallery_data_src : Text
  pub features : List Text

-- `strconv.ParseFloat` on a text of digits with at most one dot, and the order of the result with 10
-- and 1000.
pub record FloatParser : Type 0 where
  pub parse_float : Text → Option Float
  pub below_min : Float → Bool
  pub above_max : Float → Bool

-- `Stats`
pub record Stats : Type 0 where
  pub cards : ℕ
  pub skipped_type : ℕ
  pub skipped_no_id : ℕ
  pub skipped_offsite : ℕ

abbrev is_re_space : ℕ → Bool
is_re_space c = c == 32 || (c == 9 || (c == 10 || (c == 12 || c == 13)))

-- `spaceRe.ReplaceAllString(s, " ")`; the flag says that a space was just written.
unfoldable pub squeeze : Bool → Text → Text
squeeze after [] = []
squeeze after (c ∷ s) =
    let rest = squeeze (is_re_space c) s in
    if is_re_space c then (if after then rest else 32 ∷ rest) else c ∷ rest

-- `text`
unfoldable pub text : Text → Text
unfolding squeeze
text raw = trim_space (squeeze false raw)

-- `truncateRunes`
unfoldable pub truncate_runes : Text → ℕ → Text
truncate_runes s limit = if leb (length s) limit then s else trim_space (take limit s) ++ codes "…"

abbrev pub fallback_title_runes : ℕ
fallback_title_runes = 120

-- `titleOf`
unfoldable pub title_of : Card → Text
unfolding truncate_runes text
title_of card =
    let alt = trim_space card.gallery_alt in
    if is_empty alt then truncate_runes (text card.description) fallback_title_runes else alt

-- `photoURL`
unfoldable pub photo_url : Card → Text
photo_url card =
    let src = trim_space card.gallery_src in
    if is_empty src then trim_space card.gallery_data_src else src

abbrev non_empty : List Text → List Text
non_empty [] = []
non_empty (t ∷ ts) = let rest = non_empty ts in if is_empty t then rest else t ∷ rest

-- `featureSpans`
unfoldable pub feature_spans : Card → List Text
unfolding text
feature_spans card = non_empty (map text card.features)

abbrev or_else {ℓ} : {A : Type ℓ} → Option A → Option A → Option A
or_else none b = b
or_else (some a) b = some a

abbrev signed : Option ℕ → Option ℤ
signed none = none
signed (some n) = some (pos n)

-- `featureInt`
unfoldable pub feature_int : Casing → List Text → Text → Option ℤ
feature_int u [] needle = none
feature_int u (f ∷ fs) needle =
    let rest = feature_int u fs needle in
    if contains (to_lower u f) needle then or_else (signed (parse_amount f)) rest else rest

-- `strings.NewReplacer(".", "", ",", ".")`
unfoldable pub decimal_point : Text → Text
decimal_point [] = []
decimal_point (c ∷ s) =
    let rest = decimal_point s in
    if c == b'.' then rest else if c == b',' then b'.' ∷ rest else c ∷ rest

module _ (u : Casing) (floats : FloatParser) where
  open floats use {parse_float, below_min, above_max}

  -- The surface that one feature states, if it is in square metres and within the bounds.
  unfoldable pub surface : Text → Option Float
  unfolding decimal_point
  surface f =
      let lower = to_lower u f in
      let match = find_number f in
      if not (contains lower (codes "m²")) && not (contains lower (codes "m2"))
      then none
      else if is_empty match
      then none
      else elim (parse_float (decimal_point match)) [
        | none ↦ none
        | some v ↦ if below_min v || above_max v then none else some v
      ]

  abbrev is_covered : Text → Bool
  is_covered f = contains (to_lower u f) (codes "cub")

  -- The loop of `sizes` over the features, from the surfaces found so far.
  unfoldable pub sizes_from : Option Float → Option Float → List Text → Option Float × Option Float
  unfolding surface
  sizes_from tot cub [] = (tot, cub)
  sizes_from tot cub (f ∷ fs) =
      let v = surface f in
      sizes_from (if is_covered f then tot else or_else tot v)
        (if is_covered f then or_else cub v else cub) fs

  -- `sizes`
  unfoldable pub sizes : List Text → Option Float × Option Float
  unfolding sizes_from
  sizes features = sizes_from none none features

-- `basisOf`
unfoldable pub basis_of : Option Float → Option Float → Text
basis_of (some t) covered = codes "tot"
basis_of none (some c) = codes "cub"
basis_of none none = []

module _ (net : UrlOps) (u : Casing) (floats : FloatParser) where
  -- The fields of a card whose link stays on the site.
  unfoldable pub listing_fields : Card → Text → Text → Text → Listing
  unfolding title_of photo_url feature_spans feature_int sizes basis_of text
  listing_fields card zonaprop_id operation url =
      let features = feature_spans card in
      let (m2_tot, m2_cub) = sizes u floats features in
      let (amount, currency) = parse_price u (text card.price) in
      record {
        zonaprop_id = zonaprop_id;
        canonical_url = url;
        title = title_of card;
        location = text card.location;
        photo_url = photo_url card;
        price_amount = signed amount;
        currency = currency;
        expensas = signed (parse_amount (text card.expensas));
        m2_tot = m2_tot;
        m2_cub = m2_cub;
        m2_basis = basis_of m2_tot m2_cub;
        rooms = feature_int u features (codes "amb.");
        dorm = feature_int u features (codes "dorm.");
        banos = feature_int u features (codes "baño");
        operation = operation_for u operation card.to_posting;
      }

  -- `listingFromCard`
  unfoldable pub listing_from_card : Card → Text → Text → Text → Option Listing
  unfolding listing_fields
  listing_from_card card zonaprop_id origin operation =
      elim (canonical net origin card.to_posting) [
        | none ↦ none
        | some url ↦ some (listing_fields card zonaprop_id operation url)
      ]

  abbrev keep : Option Listing → List Listing × Stats → List Listing × Stats
  keep none (ls, st) = (ls, record st { skipped_offsite = st.skipped_offsite + 1 })
  keep (some l) (ls, st) = (ls ++ l ∷ [], st)

  -- The body of the loop of `ParseWithStats`.
  unfoldable pub parse_card : Text → Text → Card → List Listing × Stats → List Listing × Stats
  parse_card origin operation card (ls, st) =
      let st' = record st { cards = st.cards + 1 } in
      let id = trim_space card.data_id in
      if not (text_eq card.posting_type (codes "PROPERTY"))
      then (ls, record st' { skipped_type = st'.skipped_type + 1 })
      else if is_empty id
      then (ls, record st' { skipped_no_id = st'.skipped_no_id + 1 })
      else keep (listing_from_card card id origin operation) (ls, st')

  unfoldable pub parse_cards : Text → Text → List Card → List Listing × Stats → List Listing × Stats
  unfolding parse_card
  parse_cards origin operation [] acc = acc
  parse_cards origin operation (c ∷ cs) acc =
      parse_cards origin operation cs (parse_card origin operation c acc)

  abbrev no_stats : Stats
  no_stats = record { cards = 0; skipped_type = 0; skipped_no_id = 0; skipped_offsite = 0 }

  -- `ParseWithStats`, from the cards of the page.
  unfoldable pub parse_with_stats : List Card → Text → List Listing × Stats
  unfolding parse_cards
  parse_with_stats cards site_base =
      parse_cards (origin_of net site_base) (operation_of u site_base) cards ([], no_stats)

-- ===== src/Parser/Page/Counters.antt =====
-- The counters of a page against its cards.
use property_search.Prelude.{
  ℕ, ◌+◌, Text, ◌≡◌, refl, arith, List, [], ◌∷◌, length, length-append, Casing, Option, none, some,
  trim_space,
}
use property_search.Model.{Listing}
use property_search.Parser.Place.{UrlOps, origin_of, operation_of}
use property_search.Parser.Page.{
  Card, FloatParser, Stats, parse_card, parse_cards, parse_with_stats, no_stats, keep,
  listing_from_card,
}

abbrev accounted : List Listing → Stats → ℕ
accounted ls st = length ls + st.skipped_type + st.skipped_no_id + st.skipped_offsite

keep-accounted :
    (net : UrlOps) (u : Casing) (floats : FloatParser) (o : Option Listing) (ls : List Listing)
    (st : Stats)
    → ((keep net u floats o (ls, st)).1.cards ≡ st.cards)
      × (accounted (keep net u floats o (ls, st)).0 (keep net u floats o (ls, st)).1
          ≡ accounted ls st + 1)
keep-accounted net u floats none ls st = (refl, omega arith)
keep-accounted net u floats (some l) ls st = (refl, omega (arith, length-append ls (l ∷ [])))

module _ (net : UrlOps) (u : Casing) (floats : FloatParser) where
  parse_card-accounted :
      (origin operation : Text) (c : Card) (acc : List Listing × Stats)
      → let after = parse_card net u floats origin operation c acc in
        (after.1.cards ≡ acc.1.cards + 1) × (accounted after.0 after.1 ≡ accounted acc.0 acc.1 + 1)
  unfolding parse_card
  parse_card-accounted origin operation c (ls, st) = ground (
    arith,
    keep-accounted net u floats
        (listing_from_card net u floats c (trim_space c.data_id) origin operation) ls
        (record st { cards = st.cards + 1 }),
  )

  parse_cards-accounted :
      (origin operation : Text) (cs : List Card) (acc : List Listing × Stats)
      → let after = parse_cards net u floats origin operation cs acc in
        (after.1.cards ≡ acc.1.cards + length cs)
        × (accounted after.0 after.1 ≡ accounted acc.0 acc.1 + length cs)
  unfolding parse_cards
  parse_cards-accounted origin operation [] acc = (omega arith, omega arith)
  parse_cards-accounted origin operation (c ∷ cs) acc =
      let (n, m) = parse_card-accounted origin operation c acc in
      let (n', m') =
        parse_cards-accounted origin operation cs
          (parse_card net u floats origin operation c acc) in
      (omega arith, omega arith)

  -- Every card of a page is accounted for: it is a listing of the result, or counted by exactly one of
  -- the three counters of what was skipped.
  pub parse_with_stats-accounted :
      (cards : List Card) (site_base : Text)
      → let (ls, st) = parse_with_stats net u floats cards site_base in
        (st.cards ≡ length cards)
        × (length ls + st.skipped_type + st.skipped_no_id + st.skipped_offsite ≡ length cards)
  unfolding parse_with_stats
  parse_with_stats-accounted cards site_base =
      let (n, m) =
        parse_cards-accounted (origin_of net site_base) (operation_of u site_base) cards
          ([], no_stats net u floats) in
      (omega arith, omega arith)

-- ===== src/Tests/Read.antt =====
-- The theorems about texts, URLs, cards and evidence at concrete values.
use property_search.Prelude.{
  ◌+◌, ◌≤◌, Text, ◌≡◌, refl, false, List, [], ◌∷◌, ◌++◌, none, some, pos, arith, codes, length,
  ascii_casing, itoa, text_eq,
}
use property_search.Model.{Delivery}
use property_search.Parser.{Card, Url, UrlOps, FloatParser, parse_amount, parse_with_stats}
use property_search.Parser.Page.Counters.{parse_with_stats-accounted}
use property_search.Telegram.{utf16_len, caption, caption_limit, format_thousands, rating_keyboard}
use property_search.Telegram.Caption.Limit.{EndsWith, caption-fits}
use property_search.Telegram.Caption.Thousands.{parse_amount-format_thousands}
use property_search.Chat.Ratings.{parse_callback_data, callback_listing}
use property_search.Chat.Ratings.Buttons.{rating_keyboard-callback_listing}
use property_search.Tests.Samples.{flat}

abbrev pub card : Delivery
card = record {
  listing_id = 4;
  item = flat;
  header = codes "Hoy";
  reasons = codes "San Isidro: te gustaron 3 de 4" ∷ [];
}

caption-fits_example :
    (utf16_len (caption (λ f. itoa f) card) ≤ caption_limit)
    × EndsWith flat.canonical_url (caption (λ f. itoa f) card)
unfolding utf16_len
caption-fits_example = caption-fits (λ f. itoa f) card (omega arith)

parse_amount-format_thousands_example : parse_amount (format_thousands (pos 1250000)) ≡ some 1250000
parse_amount-format_thousands_example = parse_amount-format_thousands 1250000 (omega arith)

rating_keyboard-callback_listing_example :
    (parse_callback_data (codes "u:41") ≡ some 1)
    × (callback_listing (codes "u:41") ≡ some (pos 41))
    × (parse_callback_data (codes "d:41") ≡ some 0)
    × (callback_listing (codes "d:41") ≡ some (pos 41))
unfolding rating_keyboard itoa
rating_keyboard-callback_listing_example =
    rating_keyboard-callback_listing 41 (codes "u:41") (codes "d:41") (omega arith) refl

abbrev pub url : Text → Text → Url
url scheme host = record { scheme = scheme; host = host; path = []; raw_query = []; fragment = [] }

-- A reading of URLs in which every text is a path on the portal.
abbrev pub net : UrlOps
net = record {
  parse = λ t. some (url (codes "https") (codes "www.zonaprop.com.ar"));
  resolve_reference = λ base ref. base;
  hostname = λ h. h;
  render = λ x. x.scheme ++ (codes "://" ++ x.host);
  query = λ t. [];
  encode = λ q. [];
  equal_fold = text_eq;
}

abbrev no_floats : FloatParser
no_floats = record { parse_float = λ t. none; below_min = λ f. false; above_max = λ f. false }

abbrev posting : Text → Text → Card
posting kind id = record {
  posting_type = kind;
  data_id = id;
  to_posting = codes "/propiedades/1.html";
  price = codes "USD 120.000";
  location = codes "San Isidro";
  expensas = [];
  description = [];
  gallery_alt = codes "Depto";
  gallery_src = [];
  gallery_data_src = [];
  features = [];
}

abbrev cards : List Card
cards =
    posting (codes "PROPERTY") (codes "1")
    ∷ posting (codes "PROPERTY") []
    ∷ posting (codes "DEVELOPMENT") (codes "2")
    ∷ []

parse_with_stats-accounted_example :
    let (ls, st) =
      parse_with_stats net ascii_casing no_floats cards (codes "https://www.zonaprop.com.ar") in
    (st.cards ≡ 3) × (length ls + st.skipped_type + st.skipped_no_id + st.skipped_offsite ≡ 3)
parse_with_stats-accounted_example =
    parse_with_stats-accounted net ascii_casing no_floats cards
      (codes "https://www.zonaprop.com.ar")

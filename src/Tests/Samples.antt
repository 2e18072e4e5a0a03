-- ===== src/Tests/Samples.antt =====
-- A small database, and a world in which no call fails.
use property_search.Prelude.{ℕ, ◌+◌, Text, true, false, [], ◌∷◌, none, some, codes, pos}
use property_search.Prelude.{◌≤◌, count, arith}
use property_search.Repo.Searches.{owned}
use property_search.Repo.Searches.Limits.{WithinLimits}
use property_search.Model.{Listing, snapshot}
use property_search.Store.{
  State, Validation, UserRow, SearchRow, ListingRow, DeliveryRow, rated, Db, empty_db, Env, World,
}

abbrev pub flat : Listing
flat = record {
  zonaprop_id = codes "55123";
  canonical_url = codes "https://www.zonaprop.com.ar/55123.html";
  title = codes "Depto 3 amb";
  location = codes "San Isidro";
  photo_url = [];
  price_amount = some (pos 120000);
  currency = codes "USD";
  expensas = none;
  m2_tot = none;
  m2_cub = none;
  m2_basis = [];
  rooms = some (pos 3);
  dorm = none;
  banos = none;
  operation = codes "venta";
}

abbrev pub user : UserRow
user = record {
  user_id = 7;
  chat_id = 70;
  state = State.ready;
  state_data = [];
  active = true;
  active_model_version = 0;
}

abbrev pub search : SearchRow
search = record {
  id = 1;
  user_id = 7;
  label = codes "norte";
  url = codes "https://www.zonaprop.com.ar/a.html";
  url_norm = codes "https://www.zonaprop.com.ar/a.html";
  validation_status = Validation.valid;
  attempts = 0;
  next_check_at = none;
  last_fetch_status = none;
  last_card_count = none;
  last_checked_at = none;
}

abbrev pub listing_row : ℕ → Text → ListingRow
listing_row id posting = record {
  id = id;
  zonaprop_id = posting;
  canonical_url = codes "https://www.zonaprop.com.ar/55123.html";
  operation_type = some (codes "venta");
  currency = some (codes "USD");
  features = snapshot flat;
  recency_rank = some id;
  first_indexed_at = 100;
  last_indexed_at = 100;
}

abbrev pub delivery : ℕ → DeliveryRow
delivery item = record {
  user_id = 7;
  listing_id = item;
  message_id = none;
  position = some 1;
  score = none;
  model_version = 0;
  features = snapshot flat;
  status = rated;
  attempts = 1;
  sent_at = some 200;
}

-- Listing 3 was sent and rated, listing 4 is new.
abbrev pub db : Db
db = record empty_db {
  users = user ∷ [];
  search_urls = search ∷ [];
  listings = listing_row 3 (codes "55100") ∷ listing_row 4 (codes "55123") ∷ [];
  listing_sources =
      record { listing_id = 3; search_url_id = 1 }
      ∷ record { listing_id = 4; search_url_id = 1 }
      ∷ [];
  deliveries = delivery 3 ∷ [];
  ratings = record { user_id = 7; listing_id = 3; label = 1; created_at = 300 } ∷ [];
  next_search_id = 2;
  next_listing_id = 5;
}

abbrev pub quiet : Env
quiet = record {
  db_fails = λ n. false;
  api_fails = λ n. false;
  cancels = λ n. false;
  clock = λ n. 1000 + n;
  collate = λ a b. false;
}

abbrev pub world : World
world = record { db = db; env = quiet; step = 0; log = []; last_search = [] }

one_search : (u : ℕ) → count (owned u) db.search_urls ≤ 1
one_search u = ground arith

pub db-WithinLimits : WithinLimits db
db-WithinLimits = record {
  capped = λ u. omega (arith, one_search u);
  one_label = λ u l. ground arith;
  one_url = λ u n. ground arith;
}

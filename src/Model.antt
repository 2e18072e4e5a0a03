-- ===== src/Model.antt =====
-- internal/model: the listing, its persisted snapshot, the delivery and the contact.
-- A float64 is its bit pattern, a number; what the program computes with floats is a parameter
-- where it is used. A pointer field is an `Option`.
use property_search.Prelude.{ℕ, ℤ, Text, ◌≡◌, refl, Option, List}

abbrev pub Float : Type 0
Float = ℕ

pub record Listing : Type 0 where
  pub zonaprop_id : Text
  pub canonical_url : Text
  pub title : Text
  pub location : Text
  pub photo_url : Text
  pub price_amount : Option ℤ
  pub currency : Text
  pub expensas : Option ℤ
  pub m2_tot : Option Float
  pub m2_cub : Option Float
  pub m2_basis : Text
  pub rooms : Option ℤ
  pub dorm : Option ℤ
  pub banos : Option ℤ
  pub operation : Text

-- The JSON of `listings.features` and `deliveries.features`, by field. `omitempty` drops only empty
-- texts and nil pointers, which decode to what was dropped.
pub record Snapshot : Type 0 where
  pub zonaprop_id : Text
  pub canonical_url : Text
  pub title : Text
  pub location : Text
  pub photo_url : Text
  pub price_amount : Option ℤ
  pub currency : Text
  pub expensas : Option ℤ
  pub m2_tot : Option Float
  pub m2_cub : Option Float
  pub m2_basis : Text
  pub rooms : Option ℤ
  pub dorm : Option ℤ
  pub banos : Option ℤ
  pub operation : Text

-- `Listing.Snapshot`
unfoldable pub snapshot : Listing → Snapshot
snapshot l = record {
  zonaprop_id = l.zonaprop_id;
  canonical_url = l.canonical_url;
  title = l.title;
  location = l.location;
  photo_url = l.photo_url;
  price_amount = l.price_amount;
  currency = l.currency;
  expensas = l.expensas;
  m2_tot = l.m2_tot;
  m2_cub = l.m2_cub;
  m2_basis = l.m2_basis;
  rooms = l.rooms;
  dorm = l.dorm;
  banos = l.banos;
  operation = l.operation;
}

-- `Snapshot.Listing`
unfoldable pub listing : Snapshot → Listing
listing s = record {
  zonaprop_id = s.zonaprop_id;
  canonical_url = s.canonical_url;
  title = s.title;
  location = s.location;
  photo_url = s.photo_url;
  price_amount = s.price_amount;
  currency = s.currency;
  expensas = s.expensas;
  m2_tot = s.m2_tot;
  m2_cub = s.m2_cub;
  m2_basis = s.m2_basis;
  rooms = s.rooms;
  dorm = s.dorm;
  banos = s.banos;
  operation = s.operation;
}

-- A listing read back from its snapshot is the listing, field by field.
pub listing-snapshot : (l : Listing) → listing (snapshot l) ≡ l
unfolding listing snapshot
listing-snapshot l = refl

pub record Delivery : Type 0 where
  pub listing_id : ℕ
  pub item : Listing
  pub header : Text
  pub reasons : List Text

pub record Contact : Type 0 where
  pub phone : Text
  pub email : Text
  pub street_address : Text
  pub neighbourhood : Text

-- ===== src/Repo/Contacts.antt =====
-- internal/repo/contacts.go: the cached contact of a listing.
pub mod Cache
use property_search.Prelude.{
  ℕ, Text, Bool, true, false, not, ◌&&◌, ◌-◌, ◌*◌, List, [], ◌∷◌, ◌++◌, Option, none, some, ltb,
  ◌==◌, if◌then◌else◌, any, find?, update,
}
use property_search.Model.{Contact}
use property_search.Store.{
  ContactRow, ListingRow, Db, Action, Result, ok, err, foreign_key, no_row, raise, pure, query,
  exec_result, now, ◌>>=◌,
}
use property_search.Repo.Searches.{second}
use property_search.Repo.Listings.{has_listing, null_if_empty}

-- `ContactTTL`
abbrev pub contact_ttl : ℕ
contact_ttl = 30 * 24 * 3600 * second

abbrev pub is_contact : ℕ → ContactRow → Bool
is_contact item r = r.listing_id == item

-- coalesce(x, '')
abbrev or_empty : Option Text → Text
or_empty none = []
or_empty (some t) = t

abbrev contact : ContactRow → Contact
contact r = record {
  phone = or_empty r.phone;
  email = or_empty r.email;
  street_address = or_empty r.street_address;
  neighbourhood = or_empty r.neighbourhood;
}

-- A row from after `at` is fresh: the difference of the instants is negative there, and 0 here.
unfoldable pub select_contact : ℕ → ℕ → Db → Option Contact
select_contact item at d = elim (find? (is_contact item) d.listing_contacts) [
  | none ↦ none
  | some r ↦ if ltb contact_ttl (at - r.fetched_at) then none else some (contact r)
]

-- `Repo.GetContact`; `none` is ok = false.
unfoldable pub get_contact : ℕ → ℕ → Action (Option Contact)
unfolding select_contact
get_contact item at = query (select_contact item at)

abbrev contact_row : ℕ → ℕ → Contact → ContactRow
contact_row item at c = record {
  listing_id = item;
  phone = null_if_empty c.phone;
  email = null_if_empty c.email;
  street_address = null_if_empty c.street_address;
  neighbourhood = null_if_empty c.neighbourhood;
  fetched_at = at;
}

unfoldable pub upsert_contact : ℕ → ℕ → Contact → Db → Result (Unit {0}) × Db
upsert_contact item at c d =
    if any (is_contact item) d.listing_contacts
    then (
      ok tt,
      record d {
        listing_contacts = update (is_contact item) (λ r. contact_row item at c) d.listing_contacts;
      },
    )
    else if has_listing item d
    then (ok tt, record d { listing_contacts = d.listing_contacts ++ contact_row item at c ∷ [] })
    else (err foreign_key, d)

-- `Repo.SaveContact`
unfoldable pub save_contact : ℕ → Contact → Action (Unit {0})
unfolding upsert_contact
save_contact item c = do at ← now; exec_result (upsert_contact item at c)

abbrev or_no_row : Option ListingRow → Action Text
or_no_row none = raise no_row
or_no_row (some r) = pure r.canonical_url

-- `Repo.ListingForContact`
unfoldable pub listing_for_contact : ℕ → Action Text
listing_for_contact item = do
  found ← query (λ d. find? (λ (r : ListingRow). r.id == item) d.listings)
  or_no_row found

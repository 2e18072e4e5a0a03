-- ===== src/Repo/Listings.antt =====
-- internal/repo/listings.go: the listings, their sources and the candidates of a user.
pub mod Candidates
pub mod Complete
pub mod Unique
use property_search.Prelude.{
  ℕ, suc, Text, ◌≡◌, Bool, true, false, not, ◌&&◌, ◌||◌, List, [], ◌∷◌, ◌++◌, map, Option, none,
  some, ltb, ◌==◌, if◌then◌else◌, filter, any, find?, update, take, sort_stable, length, text_eq,
  is_empty,
}
use property_search.Model.{Listing, snapshot, listing}
use property_search.Store.{
  SearchRow, ListingRow, SourceRow, DeliveryRow, Db, Action, Result, ok, err, foreign_key, query,
  exec_result, now, ◌>>=◌,
}

-- `ListingInput`
pub record ListingInput : Type 0 where
  pub item : Listing
  pub recency_rank : ℕ

-- NULLIF(x, '')
abbrev pub null_if_empty : Text → Option Text
null_if_empty t = if is_empty t then none else some t

abbrev pub is_posting : Text → ListingRow → Bool
is_posting posting r = text_eq r.zonaprop_id posting

abbrev new_listing : ℕ → ℕ → ListingInput → ListingRow
new_listing id at i = record {
  id = id;
  zonaprop_id = i.item.zonaprop_id;
  canonical_url = i.item.canonical_url;
  operation_type = null_if_empty i.item.operation;
  currency = null_if_empty i.item.currency;
  features = snapshot i.item;
  recency_rank = some i.recency_rank;
  first_indexed_at = at;
  last_indexed_at = at;
}

-- ON CONFLICT (zonaprop_id) DO UPDATE: the rank and the first sight are left alone.
abbrev pub refresh : ℕ → ListingInput → ListingRow → ListingRow
refresh at i r = record r {
  canonical_url = i.item.canonical_url;
  operation_type = null_if_empty i.item.operation;
  currency = null_if_empty i.item.currency;
  features = snapshot i.item;
  last_indexed_at = at;
}

unfoldable pub insert_listing : ℕ → ListingInput → Db → Result ℕ × Db
insert_listing at i d = elim (find? (is_posting i.item.zonaprop_id) d.listings) [
  | some r ↦ (
    ok r.id,
    record d { listings = update (is_posting i.item.zonaprop_id) (refresh at i) d.listings },
  )
  | none ↦ (
    ok d.next_listing_id,
    record d {
      listings = d.listings ++ new_listing d.next_listing_id at i ∷ [];
      next_listing_id = suc d.next_listing_id;
    },
  )
]

-- `Repo.UpsertListing`
unfoldable pub upsert_listing : ListingInput → Action ℕ
unfolding insert_listing
upsert_listing i = do at ← now; exec_result (insert_listing at i)

abbrev pub is_source : ℕ → ℕ → SourceRow → Bool
is_source item search s = s.listing_id == item && s.search_url_id == search

abbrev pub has_listing : ℕ → Db → Bool
has_listing item d = any (λ (r : ListingRow). r.id == item) d.listings

abbrev has_search : ℕ → Db → Bool
has_search search d = any (λ (r : SearchRow). r.id == search) d.search_urls

unfoldable pub insert_source : ℕ → ℕ → Db → Result (Unit {0}) × Db
insert_source item search d =
    if any (is_source item search) d.listing_sources
    then (ok tt, d)
    else if has_listing item d && has_search search d
    then (
      ok tt,
      record d {
        listing_sources =
            d.listing_sources ++ record { listing_id = item; search_url_id = search } ∷ [];
      },
    )
    else (err foreign_key, d)

-- `Repo.LinkListingSource`
unfoldable pub link_listing_source : ℕ → ℕ → Action (Unit {0})
unfolding insert_source
link_listing_source item search = exec_result (insert_source item search)

-- `Candidate`
pub record Candidate : Type 0 where
  pub listing_id : ℕ
  pub item : Listing

-- The two conditions of the candidates query.
abbrev searched_by : ℕ → ℕ → Db → Bool
searched_by user search d =
    any (λ (u : SearchRow). u.id == search && u.user_id == user) d.search_urls

abbrev pub subscribed : ℕ → ℕ → Db → Bool
subscribed user item d =
    any (λ (s : SourceRow). s.listing_id == item && searched_by user s.search_url_id d)
      d.listing_sources

abbrev pub is_delivery : ℕ → ℕ → DeliveryRow → Bool
is_delivery user item r = r.user_id == user && r.listing_id == item

abbrev pub delivered : ℕ → ℕ → Db → Bool
delivered user item d = any (is_delivery user item) d.deliveries

-- `recency_rank ASC NULLS LAST, id ASC`
abbrev ranked_before : ListingRow → ListingRow → Bool
ranked_before a b = elim a.recency_rank [
  | none ↦ elim b.recency_rank [ none ↦ ltb a.id b.id | some _ ↦ false ]
  | some m ↦ elim b.recency_rank [
    | none ↦ true
    | some n ↦ if m == n then ltb a.id b.id else ltb m n
  ]
]

-- `first_indexed_at DESC`, then the rank.
unfoldable pub newer : ListingRow → ListingRow → Bool
newer a b =
    if a.first_indexed_at == b.first_indexed_at
    then ranked_before a b
    else ltb b.first_indexed_at a.first_indexed_at

abbrev pub candidate : ListingRow → Candidate
candidate r = record { listing_id = r.id; item = listing r.features }

abbrev pub is_candidate : ℕ → Db → ListingRow → Bool
is_candidate user d r = subscribed user r.id d && not (delivered user r.id d)

unfoldable pub select_candidates : ℕ → ℕ → Db → List Candidate
unfolding newer
select_candidates user limit d =
    map candidate (take limit (sort_stable newer (filter (is_candidate user d) d.listings)))

-- `Repo.Candidates`
unfoldable pub candidates : ℕ → ℕ → Action (List Candidate)
unfolding select_candidates
candidates user limit = query (select_candidates user limit)

-- `Repo.CountListings`
unfoldable pub count_listings : Action ℕ
count_listings = query (λ d. length d.listings)

abbrev pub of_search : ℕ → SourceRow → Bool
of_search search s = s.search_url_id == search

-- `Repo.CountListingSources`
unfoldable pub count_listing_sources : ℕ → Action ℕ
count_listing_sources search = query (λ d. length (filter (of_search search) d.listing_sources))

abbrev pub source_listing : SourceRow → ℕ
source_listing s = s.listing_id

-- `Repo.LinkedListingIDs`
unfoldable pub linked_listing_ids : ℕ → Action (List ℕ)
linked_listing_ids search =
    query (λ d. map source_listing (filter (of_search search) d.listing_sources))

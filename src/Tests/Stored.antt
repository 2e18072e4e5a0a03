-- ===== src/Tests/Stored.antt =====
-- The theorems about the database at the sample data.
use property_search.Prelude.{
  ℕ, ◌*◌, ◌≤◌, Text, ◌≡◌, refl, true, false, ◌⊎◌, [], none, some, arith, codes, any, count, text_eq,
  text_eq_iff, ◌==◌,
}
use property_search.Model.{Contact, snapshot}
use property_search.Store.{ListingRow, DeliveryStatus, Error, ok, err}
use property_search.Repo.Users.{delete_user}
use property_search.Repo.Users.Deleted.{Forgotten, Kept, delete_user-forgets}
use property_search.Repo.Searches.{add_search_url_checked, second}
use property_search.Repo.Searches.Limits.{WithinLimits, add_search_url_checked-WithinLimits}
use property_search.Repo.Listings.{
  Candidate, select_candidates, delivered, insert_listing, is_posting,
}
use property_search.Repo.Listings.Complete.{FoundFor, DeliveredTo, select_candidates_complete}
use property_search.Repo.Listings.Unique.{has_row, insert_listing-one_row}
use property_search.Repo.Deliveries.{Sending}
use property_search.Repo.Ratings.{record_rating, take_lease, drop_lease}
use property_search.Repo.Ratings.Atomic.{IsRated, Cause, record_rating-atomic}
use property_search.Repo.Ratings.Lease.{take_lease-exclusive}
use property_search.Tests.Samples.{db-WithinLimits, db, world, flat}

add_search_url_checked-WithinLimits_example :
    WithinLimits
      (add_search_url_checked some 7
        (codes "sur")
        (codes "https://www.zonaprop.com.ar/b.html")
        world).1.db
add_search_url_checked-WithinLimits_example =
    add_search_url_checked-WithinLimits some 7 (codes "sur")
      (codes "https://www.zonaprop.com.ar/b.html") world db-WithinLimits

abbrev sending : Sending
sending = record {
  message_id = 0;
  position = 1;
  score = none;
  status = DeliveryStatus.sent;
  features = snapshot flat;
}

insert_listing-one_row_example :
    let (r, d) = insert_listing 1000 (record { item = flat; recency_rank = 1 }) db in
    ((posting : Text) → count (is_posting posting) d.listings ≤ 1)
    × ((id : ℕ) × (r ≡ ok id) × (any (has_row id (codes "55123")) d.listings ≡ true))
insert_listing-one_row_example =
    insert_listing-one_row 1000 (record { item = flat; recency_rank = 1 }) db one_posting
  where
    one_posting : (posting : Text) → count (is_posting posting) db.listings ≤ 1
    one_posting posting =
        ground (arith, text_eq_iff (codes "55100") posting, text_eq_iff (codes "55123") posting)

record_rating-atomic_example :
    (((record_rating 7 3 0 world).0 ≡ ok tt)
      × (delivered 7 3 db ≡ true)
      × IsRated 7 3 0 (record_rating 7 3 0 world).1.db)
    ⊎ (((e : Error) × ((record_rating 7 3 0 world).0 ≡ err e) × Cause 7 3 0 world e)
        × ((record_rating 7 3 0 world).1.db ≡ db))
record_rating-atomic_example = record_rating-atomic 7 3 0 world

take_lease-exclusive_example :
    let held = (take_lease (codes "a") 100 db).1 in
    ((take_lease (codes "b") 200 held).0 ≡ ok false)
    × ((take_lease (codes "b") 200 (drop_lease (codes "b") held)).0 ≡ ok false)
    × ((take_lease (codes "a") 200 held).0 ≡ ok true)
    × ((take_lease (codes "b") (100 * second) held).0 ≡ ok true)
unfolding take_lease text_eq
take_lease-exclusive_example =
    take_lease-exclusive (codes "a") (codes "b") 100 200 (100 * second) db refl (omega arith)
      (omega arith) refl

delete_user-forgets_example : let d = (delete_user 7 world).1.db in Forgotten 7 db d × Kept 8 db d
unfolding delete_user
delete_user-forgets_example = delete_user-forgets 7 8 world refl refl

abbrev contact : Contact
contact = record {
  phone = codes "+541144445555";
  email = [];
  street_address = codes "Mitre 100";
  neighbourhood = [];
}

select_candidates_complete_example :
    (FoundFor 7 4 db
      × (¬ (DeliveredTo 7 4 db))
      × (count (λ (c : Candidate). c.listing_id == 4) (select_candidates 7 10 db)
          ≡ count (λ (r : ListingRow). r.id == 4) db.listings))
    ⊎ (((¬ (FoundFor 7 4 db)) ⊎ DeliveredTo 7 4 db)
        × (count (λ (c : Candidate). c.listing_id == 4) (select_candidates 7 10 db) ≡ 0))
select_candidates_complete_example = select_candidates_complete 7 10 4 db (omega arith)

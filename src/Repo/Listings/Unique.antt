-- ===== src/Repo/Listings/Unique.antt =====
-- The rows of a posting under `UpsertListing`.
use property_search.Prelude.{
  ℕ, ◌≤◌, Text, ◌≡◌, refl, Bool, true, ◌&&◌, arith, any, find?, update, count, List, [], ◌∷◌, some,
  Option-cases, inl, inr, text_eq_iff, text_eq_refl, count-snoc, count-any-false, find?-none,
  any-snoc, ◌==◌, ==_refl,
}
use property_search.Store.{ListingRow, Db, ok}
use property_search.Repo.Listings.{ListingInput, is_posting, refresh, insert_listing}

abbrev pub has_row : ℕ → Text → ListingRow → Bool
has_row id posting r = r.id == id && is_posting posting r

count-refresh :
    (posting : Text) (at : ℕ) (i : ListingInput) (xs : List ListingRow)
    → count (is_posting posting) (update (is_posting i.item.zonaprop_id) (refresh at i) xs)
      ≡ count (is_posting posting) xs
count-refresh posting at i [] = refl
count-refresh posting at i (x ∷ xs) = ground (arith, count-refresh posting at i xs)

any-refresh :
    (id at : ℕ) (i : ListingInput) (xs : List ListingRow)
    → any (has_row id i.item.zonaprop_id) (update (is_posting i.item.zonaprop_id) (refresh at i) xs)
      ≡ any (has_row id i.item.zonaprop_id) xs
any-refresh id at i [] = refl
any-refresh id at i (x ∷ xs) = ground (arith, any-refresh id at i xs)

any-find? :
    (i : ListingInput) (xs : List ListingRow) (r : ListingRow)
    → find? (is_posting i.item.zonaprop_id) xs ≡ some r
    → any (has_row r.id i.item.zonaprop_id) xs ≡ true
any-find? i [] r h = cc
any-find? i (x ∷ xs) r h = ground (arith, any-find? i xs r, ==_refl r.id, ==_refl x.id)

-- Where each posting has at most one row, storing a listing, for the first time or again, leaves it
-- so, and returns the id under which the posting then has its row.
pub insert_listing-one_row :
    (at : ℕ) (i : ListingInput) (d : Db)
    → ((posting : Text) → count (is_posting posting) d.listings ≤ 1)
    → let (r, d') = insert_listing at i d in
      ((posting : Text) → count (is_posting posting) d'.listings ≤ 1)
      × ((id : ℕ) × (r ≡ ok id) × (any (has_row id i.item.zonaprop_id) d'.listings ≡ true))
unfolding insert_listing
insert_listing-one_row at i d one =
    elim (Option-cases (find? (is_posting i.item.zonaprop_id) d.listings)) [
      | inr (r, e) ↦
          rw (e, insert_listing)
            (
              (λ posting. omega (arith, count-refresh posting at i d.listings, one posting)),
              (r.id, refl, rw any-refresh (any-find? i d.listings r e)),
            )
      | inl e ↦
          rw (e, insert_listing)
            (
              (λ posting. rw count-snoc (
                  ground (
                    arith,
                    one posting,
                    text_eq_iff i.item.zonaprop_id posting,
                    count-any-false (is_posting i.item.zonaprop_id) d.listings
                        (find?-none (is_posting i.item.zonaprop_id) d.listings e),
                  ))),
              (
                d.next_listing_id,
                refl,
                rw any-snoc
                    (ground (arith, ==_refl d.next_listing_id, text_eq_refl i.item.zonaprop_id)),
              ),
            )
    ]

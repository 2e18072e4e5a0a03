-- ===== src/Repo/Listings/Candidates.antt =====
-- What the candidates of a user are.
use property_search.Prelude.{
  ℕ, ◌≤◌, ◌≡◌, true, false, arith, List, [], ◌∷◌, map, filter, length, All, All-take,
  All-sort_stable, length-map, length-take-le, Bool-cases, inl, inr,
}
use property_search.Store.{ListingRow, Db}
use property_search.Repo.Listings.{
  Candidate, candidate, newer, is_candidate, subscribed, delivered, select_candidates,
}

All-filter_candidates :
    (user : ℕ) (d : Db) (xs : List ListingRow)
    → All
        (λ (r : ListingRow). (subscribed user r.id d ≡ true) × (delivered user r.id d ≡ false))
        (filter (is_candidate user d) xs)
All-filter_candidates user d [] = tt
All-filter_candidates user d (x ∷ xs) = elim (Bool-cases (is_candidate user d x)) [
  | inl e ↦ rw e ((ground arith, ground arith), All-filter_candidates user d xs)
  | inr e ↦ rw e (All-filter_candidates user d xs)
]

All-map-candidate :
    (P : ℕ → Type 0) (xs : List ListingRow)
    → All (λ (r : ListingRow). P r.id) xs
    → All (λ (c : Candidate). P c.listing_id) (map candidate xs)
All-map-candidate P [] h = tt
All-map-candidate P (x ∷ xs) h = (h.0, All-map-candidate P xs h.1)

-- Every candidate of a user was found by one of the user's own searches and has no delivery to the
-- user, as rated, sent or baseline; and there are at most as many as the limit.
pub select_candidates-fresh :
    (user limit : ℕ) (d : Db)
    → All
        (λ (c : Candidate).
          (subscribed user c.listing_id d ≡ true) × (delivered user c.listing_id d ≡ false))
        (select_candidates user limit d)
      × (length (select_candidates user limit d) ≤ limit)
unfolding select_candidates
select_candidates-fresh user limit d = (
  All-map-candidate (λ i. (subscribed user i d ≡ true) × (delivered user i d ≡ false)) _
      (All-take _ limit _ (All-sort_stable newer _ _ (All-filter_candidates user d d.listings))),
  rw length-map (length-take-le limit _),
)

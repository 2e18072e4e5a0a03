-- ===== src/Repo/Listings/Complete.antt =====
-- `Candidates` against all listings that are stored.
use mathlib.Core.List.{Memᴰ}
use property_search.Prelude.{
  any, true, Bool-cases, inl, inr, ◌⊎◌, ==_iff, not, if◌then◌else◌, ℕ, zero, suc, ◌≤◌, ◌≡◌, refl,
  ap, ◌∙◌, Bool, ◌&&◌, List, [], ◌∷◌, arith, count, map, take, filter, length, sort_stable,
  count-sort_stable, length-sort_stable, ◌==◌,
}
use property_search.Store.{ListingRow, SourceRow, SearchRow, DeliveryRow, Db}
use property_search.Repo.Listings.{
  Candidate, candidate, newer, is_candidate, select_candidates, subscribed, delivered, is_delivery,
}

module _ (p : ListingRow → Bool) where
  length-filter-le : (xs : List ListingRow) → length (filter p xs) ≤ length xs
  length-filter-le [] = omega arith
  length-filter-le (x ∷ xs) = ground (arith, length-filter-le xs)

  count-filter :
      (q : ListingRow → Bool) (xs : List ListingRow)
      → count q (filter p xs) ≡ count (λ r. q r && p r) xs
  count-filter q [] = refl
  count-filter q (x ∷ xs) = ground (arith, count-filter q xs)

take-all : (n : ℕ) (xs : List ListingRow) → length xs ≤ n → take n xs ≡ xs
take-all zero [] h = refl
take-all zero (x ∷ xs) h = ground arith
take-all (suc n) [] h = refl
take-all (suc n) (x ∷ xs) h = ap (λ ys. x ∷ ys) (take-all n xs (omega arith))

pub count-map-candidate :
    (item : ℕ) (xs : List ListingRow)
    → count (λ (c : Candidate). c.listing_id == item) (map candidate xs)
      ≡ count (λ (r : ListingRow). r.id == item) xs
count-map-candidate item [] = refl
count-map-candidate item (x ∷ xs) = omega (arith, count-map-candidate item xs)

module _ {ℓ} {A : Type ℓ} (p : A → Bool) where
  any-Memᴰ : (xs : List A) → any p xs ≡ true → (x : A) × Memᴰ x xs × (p x ≡ true)
  any-Memᴰ [] h = absurd (cc h)
  any-Memᴰ (x ∷ xs) h = elim (Bool-cases (p x)) [
    | inl e ↦ (x, Memᴰ.head refl, e)
    | inr e ↦ (let (y, m, q) = any-Memᴰ xs (rw e at h) in (y, Memᴰ.tail m, q))
  ]

  Memᴰ-any : (xs : List A) (x : A) → Memᴰ x xs → p x ≡ true → any p xs ≡ true
  Memᴰ-any [] x m h = elim m [ ]
  Memᴰ-any (y ∷ xs) x (Memᴰ.head e) h = ground (arith, ap p e, h)
  Memᴰ-any (y ∷ xs) x (Memᴰ.tail m) h = ground (arith, Memᴰ-any xs x m h)

-- A listing was found by a search of the user: the link, and the search.
pub record FoundFor (user item : ℕ) (d : Db) : Type 0 where
  pub link : SourceRow
  pub search : SearchRow
  pub linked : Memᴰ link d.listing_sources
  pub kept : Memᴰ search d.search_urls
  pub of_item : link.listing_id ≡ item
  pub by_search : link.search_url_id ≡ search.id
  pub of_user : search.user_id ≡ user

-- A listing was delivered to the user, in whatever status.
pub record DeliveredTo (user item : ℕ) (d : Db) : Type 0 where
  pub row : DeliveryRow
  pub recorded : Memᴰ row d.deliveries
  pub of_user : row.user_id ≡ user
  pub of_item : row.listing_id ≡ item

FoundFor-subscribed :
    (user item : ℕ) (d : Db) → FoundFor user item d → subscribed user item d ≡ true
FoundFor-subscribed user item d f = Memᴰ-any _ d.listing_sources f.link f.linked (
    ground (
      arith,
      f.of_item,
      ==_iff f.link.listing_id item,
      Memᴰ-any (λ (u : SearchRow). u.id == f.link.search_url_id && u.user_id == user) d.search_urls
          f.search f.kept
          (ground (
            arith,
            f.by_search,
            f.of_user,
            ==_iff f.search.id f.link.search_url_id,
            ==_iff f.search.user_id user,
          )),
    ))

subscribed-FoundFor :
    (user item : ℕ) (d : Db) → subscribed user item d ≡ true → FoundFor user item d
subscribed-FoundFor user item d h =
    let (s, m, q) = any-Memᴰ _ d.listing_sources h in
    let (u, k, r) =
      any-Memᴰ (λ (u : SearchRow). u.id == s.search_url_id && u.user_id == user) d.search_urls
        (ground (arith, q)) in
    record {
      link = s;
      search = u;
      linked = m;
      kept = k;
      of_item = ground (arith, q, ==_iff s.listing_id item);
      by_search = ground (arith, r, ==_iff u.id s.search_url_id);
      of_user = ground (arith, r, ==_iff u.user_id user);
    }

delivered-DeliveredTo :
    (user item : ℕ) (d : Db) → delivered user item d ≡ true → DeliveredTo user item d
delivered-DeliveredTo user item d h =
    let (r, m, q) = any-Memᴰ (is_delivery user item) d.deliveries h in
    record {
      row = r;
      recorded = m;
      of_user = ground (arith, q, ==_iff r.user_id user);
      of_item = ground (arith, q, ==_iff r.listing_id item);
    }

DeliveredTo-delivered :
    (user item : ℕ) (d : Db) → DeliveredTo user item d → delivered user item d ≡ true
DeliveredTo-delivered user item d f =
    Memᴰ-any (is_delivery user item) d.deliveries f.row f.recorded (
      ground (arith, f.of_user, f.of_item, ==_iff f.row.user_id user, ==_iff f.row.listing_id item))

count-of_id :
    (f : ℕ → Bool) (item : ℕ) (xs : List ListingRow)
    → count (λ (r : ListingRow). (r.id == item) && f r.id) xs
      ≡ (if f item then count (λ (r : ListingRow). r.id == item) xs else 0)
count-of_id f item [] = ground arith
count-of_id f item (x ∷ xs) = elim (Bool-cases (x.id == item)) [
  | inl e ↦ ground (arith, e, ap f (same e), count-of_id f item xs)
  | inr e ↦ ground (arith, e, count-of_id f item xs)
]
  where
    same : (x.id == item) ≡ true → x.id ≡ item
    same e = ground (arith, e, ==_iff x.id item)

select_candidates-count :
    (user limit item : ℕ) (d : Db)
    → length d.listings ≤ limit
    → count (λ (c : Candidate). c.listing_id == item) (select_candidates user limit d) ≡ (
        if subscribed user item d && not (delivered user item d)
        then count (λ (r : ListingRow). r.id == item) d.listings
        else 0)
unfolding select_candidates
select_candidates-count user limit item d h =
    let rows = filter (is_candidate user d) d.listings in
    count-map-candidate item (take limit (sort_stable newer rows))
    ∙ ap (count (λ (r : ListingRow). r.id == item)) (
        take-all limit (sort_stable newer rows) (
          omega (
            arith,
            length-sort_stable newer rows,
            length-filter-le (is_candidate user d) d.listings,
          )))
    ∙ count-sort_stable newer (λ (r : ListingRow). r.id == item) rows
    ∙ count-filter (is_candidate user d) (λ (r : ListingRow). r.id == item) d.listings
    ∙ count-of_id (λ i. subscribed user i d && not (delivered user i d)) item d.listings

-- Where the limit is not below the number of stored listings, a listing is among the candidates of a
-- user as often as it is stored, if a search of the user found it and it was not delivered to the user;
-- otherwise it is not among them.
pub select_candidates_complete :
    (user limit item : ℕ) (d : Db)
    → length d.listings ≤ limit
    → (FoundFor user item d
        × (¬ (DeliveredTo user item d))
        × (count (λ (c : Candidate). c.listing_id == item) (select_candidates user limit d)
            ≡ count (λ (r : ListingRow). r.id == item) d.listings))
      ⊎ (((¬ (FoundFor user item d)) ⊎ DeliveredTo user item d)
          × (count (λ (c : Candidate). c.listing_id == item) (select_candidates user limit d) ≡ 0))
select_candidates_complete user limit item d h =
    let counted = select_candidates-count user limit item d h in
    elim (Bool-cases (delivered user item d)) [
      | inl sent ↦ inr (inr (delivered-DeliveredTo user item d sent), ground (arith, counted, sent))
      | inr unsent ↦ elim (Bool-cases (subscribed user item d)) [
        | inl found ↦ inl (
          subscribed-FoundFor user item d found,
          λ f. ground (arith, unsent, DeliveredTo-delivered user item d f),
          ground (arith, counted, found, unsent),
        )
        | inr missed ↦ inr (
          inl (λ f. ground (arith, missed, FoundFor-subscribed user item d f)),
          ground (arith, counted, missed),
        )
      ]
    ]

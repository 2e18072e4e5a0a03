-- ===== src/Digest/Runner/Indexing.antt =====
-- What indexing the searches of a user does to the deliveries and to the keys of the listings.
use property_search.Prelude.{
  ℕ, ◌≤◌, ◌≡◌, refl, ◌+◌, Bool, true, arith, any, any-snoc, count, count-snoc, update, List, [],
  ◌∷◌, none, some, find?, Option-cases, inl, inr, ltb, if◌then◌else◌, ◌==◌, not, ◌&&◌,
}
use property_search.Model.{Listing}
use property_search.Store.{ListingRow, DeliveryRow, Db}
use property_search.Store.Silent.{
  IsPreorder, Silent, Silent-pure, Silent-query, Silent-exec, Silent-exec_result, Silent-attempt,
  Silent-bind, Silent-transaction, Silent-now, Silent-raise, Silent-if,
}
use property_search.Repo.Searches.{SearchUrl, update_search, with_stats, update_search_url_stats}
use property_search.Repo.Listings.{
  ListingInput, is_posting, refresh, delivered, is_delivery, insert_listing, insert_source,
  upsert_listing, link_listing_source, count_listing_sources, linked_listing_ids,
}
use property_search.Repo.Deliveries.{
  insert_baseline, baseline_row, baseline_each, baseline_deliveries,
}
use property_search.Outside.{Outside, Parsed, Page, page, broken, read_page, fetch_page}
use property_search.Digest.Runner.{
  is_empty_list, counted, index_listings, baseline_search, store_page, index_search, index_all,
}

abbrev pub has_key : ℕ → ListingRow → Bool
has_key item r = r.id == item

-- The ids of the listings are distinct, and below the next one of the sequence.
abbrev pub IsKeyed : Db → Type 0
IsKeyed d =
    (item : ℕ) → count (has_key item) d.listings ≤ (if ltb item d.next_listing_id then 1 else 0)

-- What was delivered stays so, and the keys stay distinct.
abbrev pub Grows : ℕ → ℕ → Db → Db → Type 0
Grows user item d d' =
    (delivered user item d ≡ true → delivered user item d' ≡ true) × (IsKeyed d → IsKeyed d')

pub Grows-IsPreorder : (user item : ℕ) → IsPreorder (Grows user item)
Grows-IsPreorder user item = record {
  stay = λ d. (λ h. h, λ h. h);
  trans = λ a b c h k. (λ x. k.0 (h.0 x), λ x. k.1 (h.1 x));
}

count-refresh :
    (item at : ℕ) (i : ListingInput) (xs : List ListingRow)
    → count (has_key item) (update (is_posting i.item.zonaprop_id) (refresh at i) xs)
      ≡ count (has_key item) xs
count-refresh item at i [] = refl
count-refresh item at i (x ∷ xs) = ground (arith, count-refresh item at i xs)

insert_listing-IsKeyed :
    (at : ℕ) (i : ListingInput) (d : Db) → IsKeyed d → IsKeyed (insert_listing at i d).1
unfolding insert_listing
insert_listing-IsKeyed at i d h =
    elim (Option-cases (find? (is_posting i.item.zonaprop_id) d.listings)) [
      | inl e ↦ rw (e, insert_listing) (λ item. rw count-snoc (ground (arith, h item)))
      | inr (r, e) ↦
          rw (e, insert_listing) (λ item. rw (count-refresh item at i d.listings) (h item))
    ]

insert_listing-any :
    (at : ℕ) (i : ListingInput) (d : Db) (p : DeliveryRow → Bool)
    → any p (insert_listing at i d).1.deliveries ≡ any p d.deliveries
unfolding insert_listing
insert_listing-any at i d p =
    elim (Option-cases (find? (is_posting i.item.zonaprop_id) d.listings)) [
      | inl e ↦ rw (e, insert_listing) refl
      | inr (r, e) ↦ rw (e, insert_listing) refl
    ]

module _ (user item : ℕ) where
  insert_listing-Grows :
      (at : ℕ) (i : ListingInput) (d : Db) → Grows user item d (insert_listing at i d).1
  insert_listing-Grows at i d = (λ h. insert_listing-deliveries h, insert_listing-IsKeyed at i d)
    where
      insert_listing-deliveries :
          delivered user item d ≡ true → delivered user item (insert_listing at i d).1 ≡ true
      insert_listing-deliveries h = rw (insert_listing-any at i d (is_delivery user item)) h

  insert_source-Grows :
      (listing search : ℕ) (d : Db) → Grows user item d (insert_source listing search d).1
  unfolding insert_source
  insert_source-Grows listing search d = (λ h. ground arith, λ k x. ground (arith, k x))

  insert_baseline-Grows :
      (owner listing : ℕ) (d : Db) → Grows user item d (insert_baseline owner listing d).1
  unfolding insert_baseline
  insert_baseline-Grows owner listing d = elim (Option-cases (find? (has_key listing) d.listings)) [
    | inl e ↦ rw (e, insert_baseline) (λ h. h, λ k. k)
    | inr (l, e) ↦
        rw (e, insert_baseline)
          (
            λ h.
                ground
                  (arith, any-snoc (is_delivery user item) d.deliveries (baseline_row owner l)),
            λ k x. ground (arith, k x),
          )
  ]

  o : IsPreorder (Grows user item)
  o = Grows-IsPreorder user item

  upsert_listing-Silent : (i : ListingInput) → Silent (Grows user item) (upsert_listing i)
  unfolding upsert_listing
  upsert_listing-Silent i =
      Silent-now o _ (λ at. Silent-exec_result o (insert_listing at i) (insert_listing-Grows at i))

  index_listings-Silent :
      (search rank : ℕ) (ls : List Listing)
      → Silent (Grows user item) (index_listings search rank ls)
  unfolding index_listings link_listing_source
  index_listings-Silent search rank [] = Silent-pure o tt
  index_listings-Silent search rank (l ∷ ls) =
      Silent-bind o (upsert_listing _) _ (upsert_listing-Silent _) (λ id.
        Silent-bind o (link_listing_source id search) _
          (Silent-exec_result o (insert_source id search) (insert_source-Grows id search))
          (λ _. index_listings-Silent search (rank + 1) ls))

  baseline_each-Silent :
      (owner : ℕ) (items : List ℕ) → Silent (Grows user item) (baseline_each owner items)
  unfolding baseline_each
  baseline_each-Silent owner [] = Silent-pure o 0
  baseline_each-Silent owner (i ∷ items) =
      Silent-bind o _ _
        (Silent-exec_result o (insert_baseline owner i) (insert_baseline-Grows owner i))
        (λ n.
          Silent-bind o _ _ (baseline_each-Silent owner items) (λ rest. Silent-pure o (n + rest)))

  baseline_deliveries-Silent :
      (owner : ℕ) (items : List ℕ) → Silent (Grows user item) (baseline_deliveries owner items)
  unfolding baseline_deliveries
  baseline_deliveries-Silent owner [] = Silent-pure o 0
  baseline_deliveries-Silent owner (i ∷ items) =
      Silent-transaction o _ (baseline_each-Silent owner (i ∷ items))

  baseline_search-Silent :
      (owner search : ℕ) → Silent (Grows user item) (baseline_search owner search)
  unfolding baseline_search linked_listing_ids
  baseline_search-Silent owner search =
      Silent-bind o _ _ (Silent-query o _)
        (λ ids. Silent-bind o _ _ (baseline_deliveries-Silent owner ids) (λ _. Silent-pure o tt))

  update_stats-Silent :
      (search status cards : ℕ)
      → Silent (Grows user item) (update_search_url_stats search status cards)
  unfolding update_search_url_stats
  update_stats-Silent search status cards = Silent-now o _ (λ at.
      Silent-exec o (update_search search (with_stats status cards at)) (λ d. (λ h. h, λ k. k)))

  store_page-Silent :
      (owner search before : ℕ) (p : Parsed)
      → Silent (Grows user item) (store_page owner search before p)
  unfolding store_page
  store_page-Silent owner search before p =
      Silent-bind o _ _ (Silent-attempt o _ (update_stats-Silent search p.status p.stats.cards))
        (λ _. Silent-bind o _ _ (index_listings-Silent search 1 p.listings) (λ _.
          Silent-if o (before == 0 && not (is_empty_list p.listings)) _ _
            (baseline_search-Silent owner search) (Silent-pure o tt)))

  index_search-Silent :
      (q : Outside) (owner : ℕ) (s : SearchUrl) → Silent (Grows user item) (index_search q owner s)
  unfolding index_search count_listing_sources
  index_search-Silent q owner s = Silent-bind o _ _ (Silent-query o _) (λ before.
      Silent-bind o (fetch_page q s.url) _ (record { log = λ w. refl; db = λ w. o.stay w.db })
        (λ answer. Silent-bind o _ _ (read answer) (λ p. store_page-Silent owner s.id before p)))
    where
      read : (answer : Page) → Silent (Grows user item) (read_page q s.url answer)
      read (broken kind) = Silent-raise o _
      read (page status none) = Silent-raise o _
      read (page status (some cards)) = Silent-pure o _

  -- Indexing sends nothing and keeps what was delivered, and the keys distinct.
  pub index_all-Silent :
      (q : Outside) (owner : ℕ) (ss : List SearchUrl)
      → Silent (Grows user item) (index_all q owner ss)
  unfolding index_all
  index_all-Silent q owner [] = Silent-pure o 0
  index_all-Silent q owner (s ∷ ss) =
      Silent-bind o _ _ (Silent-attempt o _ (index_search-Silent q owner s))
        (λ r. Silent-bind o _ _ (index_all-Silent q owner ss) (λ n. Silent-pure o (counted r + n)))

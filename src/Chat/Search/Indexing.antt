-- ===== src/Chat/Search/Indexing.antt =====
-- The URLs of the portal, over the indexing of the searches.
use property_search.Prelude.{
  All-update, ℕ, ◌+◌, ◌≡◌, refl, not, ◌&&◌, List, [], ◌∷◌, none, some, Option-cases, find?, inl,
  inr, arith, ◌==◌,
}
use property_search.Model.{Listing}
use property_search.Store.{
  Db, SearchRow, ListingRow, Keeps, Keeps-pure, Keeps-raise, Keeps-query, Keeps-exec,
  Keeps-exec_result, Keeps-attempt, Keeps-if, Keeps-now, Keeps-bind, Keeps-transaction,
}
use property_search.Repo.Searches.{
  SearchUrl, update_search, with_stats, update_search_url_stats, has_id,
}
use property_search.Repo.Listings.{
  ListingInput, is_posting, insert_listing, insert_source, upsert_listing, link_listing_source,
  count_listing_sources, linked_listing_ids,
}
use property_search.Repo.Deliveries.{
  upsert_delivery, insert_baseline, baseline_each, baseline_deliveries, Sending,
}
use property_search.Outside.{Outside, Parsed, Page, page, broken, fetch_page, read_page}
use property_search.Digest.{
  index_listings, is_empty_list, baseline_search, store_page, index_search, rank, index_all,
  counted,
}
use property_search.Chat.Onboarding.Portal.{OnlyPortal, IsFromPortal}

module _ (o : Outside) where
  -- Users and searches that are left as they were.
  abbrev Unchanged : Db → Db → Type 0
  Unchanged d d' = (d'.search_urls ≡ d.search_urls) × (d'.users ≡ d.users)

  Unchanged-Portal : (d d' : Db) → Unchanged d d' → OnlyPortal o d → OnlyPortal o d'
  Unchanged-Portal d d' (e, f) h = (rw e h.0, rw f h.1)

  insert_listing-Portal :
      (at : ℕ) (i : ListingInput) (d : Db) → OnlyPortal o d → OnlyPortal o (insert_listing at i d).1
  unfolding insert_listing
  insert_listing-Portal at i d h =
      elim (Option-cases (find? (is_posting i.item.zonaprop_id) d.listings)) [
        | inl e ↦ rw (e, insert_listing) h
        | inr (r, e) ↦ rw (e, insert_listing) h
      ]

  insert_source-Portal :
      (item search : ℕ) (d : Db) → OnlyPortal o d → OnlyPortal o (insert_source item search d).1
  unfolding insert_source
  insert_source-Portal item search d h =
      Unchanged-Portal d (insert_source item search d).1 (ground arith, ground arith) h

  pub upsert_delivery-Portal :
      (user item at : ℕ) (s : Sending) (d : Db)
      → OnlyPortal o d
      → OnlyPortal o (upsert_delivery user item at s d).1
  unfolding upsert_delivery
  upsert_delivery-Portal user item at s d h =
      Unchanged-Portal d (upsert_delivery user item at s d).1 (ground arith, ground arith) h

  insert_baseline-Unchanged : (user item : ℕ) (d : Db) → Unchanged d (insert_baseline user item d).1
  unfolding insert_baseline
  insert_baseline-Unchanged user item d =
      elim (Option-cases (find? (λ (r : ListingRow). r.id == item) d.listings)) [
        | inl e ↦ rw (e, insert_baseline) (refl, refl)
        | inr (l, e) ↦ rw (e, insert_baseline) (ground arith, ground arith)
      ]

  baseline_each-Portal :
      (user : ℕ) (items : List ℕ) → Keeps (OnlyPortal o) (baseline_each user items)
  unfolding baseline_each
  baseline_each-Portal user [] = Keeps-pure 0
  baseline_each-Portal user (item ∷ items) =
      Keeps-bind _ _
        (Keeps-exec_result (insert_baseline user item) (λ d.
          Unchanged-Portal d (insert_baseline user item d).1
            (insert_baseline-Unchanged user item d)))
        (λ n. Keeps-bind _ _ (baseline_each-Portal user items) (λ rest. Keeps-pure (n + rest)))

  baseline_deliveries-Portal :
      (user : ℕ) (items : List ℕ) → Keeps (OnlyPortal o) (baseline_deliveries user items)
  unfolding baseline_deliveries
  baseline_deliveries-Portal user [] = Keeps-pure 0
  baseline_deliveries-Portal user (item ∷ items) =
      Keeps-transaction _ (baseline_each-Portal user (item ∷ items))

  update_search_url_stats-Portal :
      (search status cards : ℕ) → Keeps (OnlyPortal o) (update_search_url_stats search status cards)
  unfolding update_search_url_stats
  update_search_url_stats-Portal search status cards = Keeps-now _ (λ at.
      Keeps-exec (update_search search (with_stats status cards at)) (λ d h. (
        All-update (λ (r : SearchRow). IsFromPortal o r.url) (has_id search)
            (with_stats status cards at) d.search_urls (λ x k. k) h.0,
        h.1,
      )))

  index_listings-Portal :
      (search rank : ℕ) (ls : List Listing) → Keeps (OnlyPortal o) (index_listings search rank ls)
  unfolding index_listings upsert_listing link_listing_source
  index_listings-Portal search rank [] = Keeps-pure tt
  index_listings-Portal search rank (l ∷ ls) =
      Keeps-bind _ _
        (Keeps-now _ (λ at.
          Keeps-exec_result (insert_listing at (record { item = l; recency_rank = rank }))
            (insert_listing-Portal at _)))
        (λ id.
          Keeps-bind _ _
            (Keeps-exec_result (insert_source id search) (insert_source-Portal id search))
            (λ _. index_listings-Portal search (rank + 1) ls))

  baseline_search-Portal : (user search : ℕ) → Keeps (OnlyPortal o) (baseline_search user search)
  unfolding baseline_search linked_listing_ids
  baseline_search-Portal user search =
      Keeps-bind _ _ (Keeps-query _)
        (λ ids. Keeps-bind _ _ (baseline_deliveries-Portal user ids) (λ n. Keeps-pure tt))

  store_page-Portal :
      (user search n : ℕ) (p : Parsed) → Keeps (OnlyPortal o) (store_page user search n p)
  unfolding store_page
  store_page-Portal user search n p =
      Keeps-bind _ _
        (Keeps-attempt _ (update_search_url_stats-Portal search p.status p.stats.cards))
        (λ _. Keeps-bind _ _ (index_listings-Portal search 1 p.listings) (λ _.
          Keeps-if (n == 0 && not (is_empty_list p.listings)) _ _
            (baseline_search-Portal user search) (Keeps-pure tt)))

  index_search-Portal : (user : ℕ) (s : SearchUrl) → Keeps (OnlyPortal o) (index_search o user s)
  unfolding index_search count_listing_sources
  index_search-Portal user s = Keeps-bind _ _ (Keeps-query _) (λ n.
      Keeps-bind (fetch_page o s.url) _ (record { at = λ w h. h })
        (λ answer. Keeps-bind _ _ (read answer) (store_page-Portal user s.id n)))
    where
      read : (answer : Page) → Keeps (OnlyPortal o) (read_page o s.url answer)
      read (broken kind) = Keeps-raise _
      read (page status none) = Keeps-raise _
      read (page status (some cards)) = Keeps-pure _

  pub index_all-Portal :
      (user : ℕ) (ss : List SearchUrl) → Keeps (OnlyPortal o) (index_all o user ss)
  unfolding index_all
  index_all-Portal user [] = Keeps-pure 0
  index_all-Portal user (s ∷ ss) =
      Keeps-bind _ _ (Keeps-attempt _ (index_search-Portal user s))
        (λ r. Keeps-bind _ _ (index_all-Portal user ss) (λ n. Keeps-pure (counted r + n)))

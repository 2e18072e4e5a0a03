-- ===== src/Digest/Runner/Room.antt =====
-- The candidates of a user against what was delivered to the user.
use property_search.Prelude.{
  ℕ, ◌≤◌, ◌≡◌, refl, arith, List, [], ◌∷◌, map, filter, take, length, length-map, count,
  count-take-le, sort_stable, ◌∙◌, count-sort_stable, length-sort_stable, ◌==◌, if◌then◌else◌,
}
use property_search.Store.{ListingRow, Db}
use property_search.Repo.Listings.{Candidate, newer, is_candidate, delivered, select_candidates}
use property_search.Repo.Listings.Complete.{count-map-candidate}
use property_search.Score.{Weights}
use property_search.Outside.{Outside}
use property_search.Digest.Runner.{rank, rank_candidate}
use property_search.Digest.Runner.Indexing.{has_key, IsKeyed, Grows}
use property_search.Digest.Runner.Once.{is_ranked}

module _ (user item : ℕ) where
  count-filter_candidates :
      (d : Db) (xs : List ListingRow)
      → count (has_key item) (filter (is_candidate user d) xs)
        ≤ (if delivered user item d then 0 else count (has_key item) xs)
  count-filter_candidates d [] = ground arith
  count-filter_candidates d (x ∷ xs) = ground (arith, count-filter_candidates d xs)

  -- A listing is at most once among the candidates, and not at all once it was delivered.
  pub select_candidates-one :
      (limit : ℕ) (d : Db)
      → IsKeyed d
      → count (λ (c : Candidate). c.listing_id == item) (select_candidates user limit d)
        ≤ (if delivered user item d then 0 else 1)
  unfolding select_candidates
  select_candidates-one limit d keyed =
      let rows = filter (is_candidate user d) d.listings in
      ground (
        arith,
        count-map-candidate item (take limit (sort_stable newer rows)),
        count-take-le (has_key item) limit (sort_stable newer rows),
        count-sort_stable newer (has_key item) rows,
        count-filter_candidates d d.listings,
        keyed item,
      )

  count-rank_candidate :
      (o : Outside) (v : Weights) (cs : List Candidate)
      → count (is_ranked item) (map (rank_candidate o v) cs)
        ≡ count (λ (c : Candidate). c.listing_id == item) cs
  unfolding rank_candidate
  count-rank_candidate o v [] = refl
  count-rank_candidate o v (c ∷ cs) = omega (arith, count-rank_candidate o v cs)

  -- Ranking keeps each candidate.
  pub count-rank :
      (o : Outside) (v : Weights) (cs : List Candidate)
      → count (is_ranked item) (rank o v cs) ≡ count (λ (c : Candidate). c.listing_id == item) cs
  unfolding rank
  count-rank o v cs = count-sort_stable _ (is_ranked item) _ ∙ count-rank_candidate o v cs

  pub length-rank :
      (o : Outside) (v : Weights) (cs : List Candidate) → length (rank o v cs) ≡ length cs
  unfolding rank
  length-rank o v cs = length-sort_stable _ _ ∙ length-map _ cs

  abbrev pub room : Db → ℕ
  room d = if delivered user item d then 0 else 1

  pub room-le : (d d' : Db) → Grows user item d d' → room d' ≤ room d
  room-le d d' g = ground (arith, g.0)

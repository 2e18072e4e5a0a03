-- ===== src/Digest/Runner/Ranking.antt =====
-- The order in which a cycle sends the candidates.
use property_search.Prelude.{
  ◌≡◌, Bool, true, false, List, map, length, length-map, IsSorted, IsSorted-sort_stable, count,
  count-sort_stable, length-sort_stable, ◌∙◌,
}
use property_search.Model.{Float}
use property_search.Repo.Listings.{Candidate}
use property_search.Score.{Weights}
use property_search.Outside.{Outside}
use property_search.Digest.Runner.{Ranked, rank, rank_candidate}

-- Where `<` on floats is asymmetric, the candidates are ranked by descending score, none having a
-- higher score than the one before it, and the ranking neither loses nor doubles a candidate:
-- whatever is counted among the scored candidates, the ranking has as many of it.
pub rank-IsSorted :
    (o : Outside) (w : Weights) (cs : List Candidate) (p : Ranked → Bool)
    → ((a b : Float) → o.floats.lt a b ≡ true → o.floats.lt b a ≡ false)
    → IsSorted (λ (a b : Ranked). o.floats.lt b.score a.score) (rank o w cs)
      × (count p (rank o w cs) ≡ count p (map (rank_candidate o w) cs))
      × (length (rank o w cs) ≡ length cs)
unfolding rank
rank-IsSorted o w cs p asym = (
  IsSorted-sort_stable _ (λ a b. asym b.score a.score) _,
  count-sort_stable _ p _,
  length-sort_stable _ _ ∙ length-map _ cs,
)

-- ===== src/Score/Retrain/Counted.antt =====
-- internal/score/retrain.go: the loop of a training against the counting of its samples.
use property_search.Prelude.{
  ℕ, ◌≡◌, ◌∙◌, Text, Bool, not, ◌+◌, ◌==◌, List, [], ◌∷◌, filter, count, arith, Casing,
}
use property_search.Model.{listing}
use property_search.Repo.Weights.{TrainingSample}
use property_search.Score.Floats.{FloatOps}
use property_search.Score.Features.{extract}
use property_search.Score.Model.{Weights, new_weights, add, lookup_bucket}
use property_search.Score.Model.Evidence.{evidence, is_feature, add_features-evidence}
use property_search.Score.Retrain.{train}

abbrev pub liked : TrainingSample → Bool
liked s = s.label == 1

abbrev pub disliked : TrainingSample → Bool
disliked s = not (s.label == 1)

module _ (f : FloatOps) (u : Casing) (name value : Text) where
  -- How often a feature with a value stands in the listings of some samples.
  abbrev pub occurrences : List TrainingSample → ℕ
  occurrences [] = 0
  occurrences (s ∷ ss) =
      count (is_feature name value) (extract f u (listing s.snapshot)) + occurrences ss

  train-occurrences :
      (samples : List TrainingSample) (w : Weights)
      → let after = evidence name value (train f u samples w).buckets in
        (after.ups ≡ (evidence name value w.buckets).ups + occurrences (filter liked samples))
        × (after.downs
            ≡ (evidence name value w.buckets).downs + occurrences (filter disliked samples))
  unfolding train add
  train-occurrences [] w = (omega arith, omega arith)
  train-occurrences (s ∷ ss) w = ground (
    arith,
    train-occurrences ss (add (extract f u (listing s.snapshot)) (s.label == 1) w),
    add_features-evidence (s.label == 1) name value (extract f u (listing s.snapshot)) w.buckets,
  )

  -- A model trained sample by sample holds for each feature and value what counting gives: in favour,
  -- how often it stands in the listings that were liked, and against, in those that were not.
  pub train-counts :
      (samples : List TrainingSample) (version : ℕ)
      → let bucket = evidence name value (train f u samples (new_weights version)).buckets in
        (bucket.ups ≡ occurrences (filter liked samples))
        × (bucket.downs ≡ occurrences (filter disliked samples))
  unfolding new_weights lookup_bucket
  train-counts samples version =
      let (up, down) = train-occurrences samples (new_weights version) in
      (up ∙ omega arith, down ∙ omega arith)

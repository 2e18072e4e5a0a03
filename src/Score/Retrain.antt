-- ===== src/Score/Retrain.antt =====
-- retrain.go: training, loading and the agreement of the model.
pub mod Reloaded
pub mod Counted
pub mod Totals
pub mod Loading
pub mod Stored
use property_search.Prelude.{
  ℕ, pos, Bool, true, false, not, ◌||◌, ◌+◌, ◌-◌, ◌*◌, ◌++◌, List, [], ◌∷◌, ltb, ◌==◌,
  if◌then◌else◌, Casing, length, any, update,
}
use property_search.Model.{Float, listing}
use property_search.Store.{Action, pure, ◌>>=◌, ◌>>◌}
use property_search.Repo.Searches.{second}
use property_search.Repo.Weights.{
  WeightRow, TrainingSample, ScoredSample, training_samples, model_version, replace_weights,
  active_weights, scored_rated_deliveries,
}
use property_search.Score.Floats.{FloatOps}
use property_search.Score.Features.{extract}
use property_search.Score.Model.{Entry, Weights, new_weights, set_bucket, add}

-- The rows of a model, one for each bucket.
unfoldable pub rows_of : List Entry → List WeightRow
rows_of [] = []
rows_of (e ∷ es) =
    record { feature = e.feature; value = e.value; ups = e.bucket.ups; downs = e.bucket.downs }
    ∷ rows_of es

-- The loop of `Load`.
unfoldable pub load_rows : List WeightRow → List Entry → List Entry
unfolding set_bucket
load_rows [] es = es
load_rows (r ∷ rs) es =
    load_rows rs (set_bucket r.feature r.value (record { ups = r.ups; downs = r.downs }) es)

-- `Load`
unfoldable pub load : ℕ → Action Weights
unfolding load_rows
load user = do
  (version, rows) ← active_weights user
  pure (record { version = version; buckets = load_rows rows [] })

module _ (f : FloatOps) (u : Casing) where
  -- The loop of `Retrain` over the samples.
  unfoldable pub train : List TrainingSample → Weights → Weights
  unfolding add
  train [] w = w
  train (s ∷ ss) w = train ss (add (extract f u (listing s.snapshot)) (s.label == 1) w)

  -- `Retrain`
  unfoldable pub retrain : ℕ → Action ℕ
  unfolding train rows_of new_weights
  retrain user = do
    samples ← training_samples user
    current ← model_version user
    replace_weights user (current + 1) (rows_of (train samples (new_weights (current + 1))).buckets)
    pure (current + 1)

-- `ConcordanceWindow`, `minSamplesForConcordance`
abbrev pub concordance_window : ℕ
concordance_window = 30 * 24 * 3600 * second

abbrev pub min_samples_for_concordance : ℕ
min_samples_for_concordance = 30

pub record Day : Type 0 where
  pub date : ℕ
  pub samples : List ScoredSample

-- `byDay[day] = append(byDay[day], s)`
unfoldable pub add_to_day : ℕ → ScoredSample → List Day → List Day
add_to_day date s days =
    if any (λ d. d.date == date) days
    then update (λ d. d.date == date) (λ d. record d { samples = d.samples ++ s ∷ [] }) days
    else days ++ record { date = date; samples = s ∷ [] } ∷ []

unfoldable pub group_by_day : (ℕ → ℕ) → List ScoredSample → List Day → List Day
unfolding add_to_day
group_by_day day_of [] days = days
group_by_day day_of (s ∷ ss) days = group_by_day day_of ss (add_to_day (day_of s.rated_at) s days)

pub record Concordance : Type 0 where
  pub agreeing : ℕ
  pub comparable : ℕ

abbrev same : Bool → Bool → Bool
same true b = b
same false b = not b

-- `day_of` is the calendar day of an instant, in the location of the rating's time.
module _ (f : FloatOps) (day_of : ℕ → ℕ) where
  open f use {lt, eq}

  unfoldable pub compare_pair : ScoredSample → ScoredSample → Concordance → Concordance
  compare_pair a b c = if eq a.score b.score || a.label == b.label then c else record {
    agreeing =
        if same (lt b.score a.score) (ltb b.label a.label) then c.agreeing + 1 else c.agreeing;
    comparable = c.comparable + 1;
  }

  -- The inner loop: `a` against the samples behind it.
  unfoldable pub compare_with : ScoredSample → List ScoredSample → Concordance → Concordance
  unfolding compare_pair
  compare_with a [] c = c
  compare_with a (b ∷ bs) c = compare_with a bs (compare_pair a b c)

  unfoldable pub compare_day : List ScoredSample → Concordance → Concordance
  unfolding compare_with
  compare_day [] c = c
  compare_day (a ∷ rest) c = compare_day rest (compare_with a rest c)

  unfoldable pub compare_days : List Day → Concordance → Concordance
  unfolding compare_day
  compare_days [] c = c
  compare_days (d ∷ ds) c = compare_days ds (compare_day d.samples c)

  -- What `Agreement` returns: the fraction, the samples, and whether there is evidence enough.
  pub record Agreed : Type 0 where
    pub fraction : Float
    pub samples : ℕ
    pub measured : Bool

  unfoldable pub agreement_of : List ScoredSample → Agreed
  unfolding compare_days group_by_day
  agreement_of samples =
      let c =
        compare_days (group_by_day day_of samples []) (record { agreeing = 0; comparable = 0 }) in
      if ltb (length samples) min_samples_for_concordance || c.comparable == 0
      then record { fraction = f.decimal 0 0; samples = length samples; measured = false }
      else record {
        fraction = f.div (f.of_int (pos c.agreeing)) (f.of_int (pos c.comparable));
        samples = length samples;
        measured = true;
      }

  -- `Agreement`
  unfoldable pub agreement : ℕ → ℕ → Action Agreed
  unfolding agreement_of
  agreement user at = do
    samples ← scored_rated_deliveries user (at - concordance_window)
    pure (agreement_of samples)

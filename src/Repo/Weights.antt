-- ===== src/Repo/Weights.antt =====
-- internal/repo/weights.go: the training samples and the generations of a user's model.
pub mod Replaced
use property_search.Prelude.{
  ℕ, Text, Bool, not, ◌&&◌, List, [], ◌∷◌, ◌++◌, map, Option, none, some, leb, ltb, ◌==◌,
  if◌then◌else◌, filter, any, find?, update, sort_stable, text_eq, filter_map,
}
use property_search.Model.{Float, Snapshot}
use property_search.Store.{
  DeliveryRow, RatingRow, WeightsRow, Db, Action, Result, ok, err, foreign_key, no_row, raise, pure,
  query, exec, exec_result, transaction, ◌>>=◌, ◌>>◌,
}
use property_search.Repo.Users.{has_user, is_user}
use property_search.Repo.Listings.{is_delivery}

-- `WeightRow`
pub record WeightRow : Type 0 where
  pub feature : Text
  pub value : Text
  pub ups : ℕ
  pub downs : ℕ

-- `TrainingSample`
pub record TrainingSample : Type 0 where
  pub label : ℕ
  pub snapshot : Snapshot

abbrev sample_of : Db → RatingRow → Option TrainingSample
sample_of d r = elim (find? (is_delivery r.user_id r.listing_id) d.deliveries) [
  | none ↦ none
  | some x ↦ some (record { label = r.label; snapshot = x.features })
]

unfoldable pub select_samples : ℕ → Db → List TrainingSample
select_samples user d = filter_map (sample_of d) (filter (λ r. r.user_id == user) d.ratings)

-- `Repo.TrainingSamples`
unfoldable pub training_samples : ℕ → Action (List TrainingSample)
unfolding select_samples
training_samples user = query (select_samples user)

abbrev pub or_no_row : {A : Type 0} → Option A → Action A
or_no_row none = raise no_row
or_no_row (some a) = pure a

abbrev pub select_version : ℕ → Db → Option ℕ
select_version user d = elim (find? (is_user user) d.users) [
  | none ↦ none
  | some u ↦ some u.active_model_version
]

-- `Repo.ModelVersion`
unfoldable pub model_version : ℕ → Action ℕ
model_version user = do v ← query (select_version user); or_no_row v

abbrev pub is_weight : ℕ → ℕ → Text → Text → WeightsRow → Bool
is_weight user version feature value r =
    r.user_id == user
    && (r.model_version == version && (text_eq r.feature feature && text_eq r.value value))

abbrev pub new_weight : ℕ → ℕ → WeightRow → WeightsRow
new_weight user version x = record {
  user_id = user;
  feature = x.feature;
  value = x.value;
  ups = x.ups;
  downs = x.downs;
  model_version = version;
}

unfoldable pub insert_weight : ℕ → ℕ → WeightRow → Db → Result (Unit {0}) × Db
insert_weight user version x d =
    if any (is_weight user version x.feature x.value) d.model_weights
    then (
      ok tt,
      record d {
        model_weights =
            update (is_weight user version x.feature x.value)
              (λ r. record r { ups = x.ups; downs = x.downs }) d.model_weights;
      },
    )
    else if has_user user d
    then (ok tt, record d { model_weights = d.model_weights ++ new_weight user version x ∷ [] })
    else (err foreign_key, d)

-- The loop of `ReplaceWeights`.
unfoldable pub insert_weights : ℕ → ℕ → List WeightRow → Action (Unit {0})
unfolding insert_weight
insert_weights user version [] = pure tt
insert_weights user version (x ∷ xs) = do
  exec_result (insert_weight user version x)
  insert_weights user version xs

unfoldable pub flip_version : ℕ → ℕ → Db → Db
flip_version user version d = record d {
  users = update (is_user user) (λ r. record r { active_model_version = version }) d.users;
}

-- Rows of another generation of the user that no delivery refers to.
abbrev pub is_stale : ℕ → ℕ → Db → WeightsRow → Bool
is_stale user version d r =
    r.user_id == user
    && (not (r.model_version == version)
        && not (
            any (λ (x : DeliveryRow). x.user_id == r.user_id && x.model_version == r.model_version)
              d.deliveries))

unfoldable pub prune_weights : ℕ → ℕ → Db → Db
prune_weights user version d = record d {
  model_weights = filter (λ r. not (is_stale user version d r)) d.model_weights;
}

-- `Repo.ReplaceWeights`
unfoldable pub replace_weights : ℕ → ℕ → List WeightRow → Action (Unit {0})
unfolding insert_weights flip_version prune_weights
replace_weights user version rows = transaction (do
  insert_weights user version rows
  exec (flip_version user version)
  exec (prune_weights user version))

abbrev pub weight_row : WeightsRow → WeightRow
weight_row r = record { feature = r.feature; value = r.value; ups = r.ups; downs = r.downs }

abbrev pub of_version : ℕ → ℕ → WeightsRow → Bool
of_version user version r = r.user_id == user && r.model_version == version

unfoldable pub select_weights : (Text → Text → Bool) → ℕ → ℕ → Db → List WeightRow
select_weights collate user version d = map weight_row (
    sort_stable
      (λ (a b : WeightsRow).
        if text_eq a.feature b.feature
        then collate a.value b.value
        else collate a.feature b.feature)
      (filter (of_version user version) d.model_weights))

-- `Repo.ActiveWeights`
unfoldable pub active_weights : ℕ → Action (ℕ × List WeightRow)
unfolding model_version select_weights
active_weights user = do
  version ← model_version user
  if version == 0 then pure (0, []) else do
    (λ w. (do rows ← query (select_weights w.env.collate user version); pure (version, rows)) w)

-- `ScoredSample`
pub record ScoredSample : Type 0 where
  pub rated_at : ℕ
  pub score : Float
  pub label : ℕ

abbrev scored_sample : Db → RatingRow → Option ScoredSample
scored_sample d r = elim (find? (is_delivery r.user_id r.listing_id) d.deliveries) [
  | none ↦ none
  | some x ↦ elim x.score [
    | none ↦ none
    | some s ↦ some (record { rated_at = r.created_at; score = s; label = r.label })
  ]
]

unfoldable pub select_scored : ℕ → ℕ → Db → List ScoredSample
select_scored user since d = filter_map (scored_sample d) (
    sort_stable (λ (a b : RatingRow). ltb a.created_at b.created_at)
      (filter (λ r. r.user_id == user && leb since r.created_at) d.ratings))

-- `Repo.ScoredRatedDeliveries`
unfoldable pub scored_rated_deliveries : ℕ → ℕ → Action (List ScoredSample)
unfolding select_scored
scored_rated_deliveries user since = query (select_scored user since)

-- ===== src/Score/Retrain/Stored.antt =====
-- internal/score/retrain.go: a training that is stored, and the model that is loaded afterwards.
use mathlib.Core.Path.{subst}
use property_search.Prelude.{
  ℕ, ◌≡◌, ◌≤◌, refl, sym, ap, ◌∙◌, Text, false, ◌+◌, List, map, filter, any, count, sort_stable,
  arith, Casing, some,
}
use property_search.Store.{Db, World, Action, ok, pure, ◌>>◌}
use property_search.Store.Ensures.{
  Ensures, Ensures-given, Ensures-pure, Ensures-query, Ensures-bind, Ensures-weaken,
}
use property_search.Repo.Weights.{
  WeightRow, TrainingSample, select_samples, training_samples, select_version, model_version,
  new_weight, weight_row, of_version, replace_weights,
}
use property_search.Repo.Weights.Replaced.{is_row, IsDistinct, stored, replace_weights-stored}
use property_search.Score.Floats.{FloatOps}
use property_search.Score.Model.{Bucket, Weights, new_weights}
use property_search.Score.Model.Evidence.{evidence}
use property_search.Score.Retrain.{rows_of, load, train, retrain}
use property_search.Score.Retrain.Reloaded.{load_rows-rows_of, train-IsDistinct}
use property_search.Score.Retrain.Counted.{liked, disliked, occurrences, train-counts}
use property_search.Score.Retrain.Loading.{version-there, version-Ensures, load-Ensures}
use property_search.Score.Retrain.Totals.{
  totals, load_rows-totals, sorted-totals, sorted-count, IsDistinct-count, rows_of-IsDistinct,
}

module _ (f : FloatOps) (u : Casing) (user v : ℕ) (d0 : Db) where
  -- The rows of the model that the ratings of a database give.
  abbrev new_rows : List WeightRow
  new_rows = rows_of (train f u (select_samples user d0) (new_weights (v + 1))).buckets

  new_rows-IsDistinct : IsDistinct new_rows
  unfolding new_weights
  new_rows-IsDistinct =
      rows_of-IsDistinct _ (train-IsDistinct f u (select_samples user d0) (new_weights (v + 1)) tt)

  -- The rows say what the trained model holds.
  new_rows-totals :
      (name value : Text)
      → totals name value new_rows
        ≡ evidence name value (train f u (select_samples user d0) (new_weights (v + 1))).buckets
  new_rows-totals name value =
      sym (
        load_rows-totals name value new_rows
          (IsDistinct-count name value new_rows new_rows-IsDistinct))
      ∙ ap (evidence name value) (load_rows-rows_of f u (select_samples user d0) (v + 1))

  -- What a database holds after the training.
  abbrev IsTrained : Db → Type 0
  IsTrained d =
      (select_version user d ≡ some (v + 1))
      × (stored user (v + 1) d ≡ map (new_weight user (v + 1)) new_rows)

  module _ (known : select_version user d0 ≡ some v)
      (unused : any (of_version user (v + 1)) d0.model_weights ≡ false) where
    -- The end of `Retrain`, once it has read.
    stores : List TrainingSample → ℕ → Action ℕ
    stores samples current = do
      replace_weights user (current + 1)
          (rows_of (train f u samples (new_weights (current + 1))).buckets)
      pure (current + 1)

    stores-IsTrained :
        (samples : List TrainingSample) (current : ℕ)
        → samples ≡ select_samples user d0
        → current ≡ v
        → Ensures (λ d. d ≡ d0) (λ n d. IsTrained d × (n ≡ v + 1)) (stores samples current)
    unfolding stores
    stores-IsTrained samples current es ec =
        subst (λ c. Ensures (λ d. d ≡ d0) (λ n d. IsTrained d × (n ≡ v + 1)) (stores samples c))
          (sym ec)
          (subst (λ ss. Ensures (λ d. d ≡ d0) (λ n d. IsTrained d × (n ≡ v + 1)) (stores ss v))
            (sym es) now_stored)
      where
        now_stored :
            Ensures
              (λ d. d ≡ d0)
              (λ n d. IsTrained d × (n ≡ v + 1))
              (stores (select_samples user d0) v)
        now_stored =
            Ensures-weaken (stores (select_samples user d0) v)
              (λ d h. (ap (λ (x : Db). x.users) h, ap (λ (x : Db). x.model_weights) h)) (λ n d q. q)
              (Ensures-bind (replace_weights user (v + 1) new_rows) _
                (replace_weights-stored user (v + 1) d0.users d0.model_weights new_rows
                  (version-there user v d0 known) unused new_rows-IsDistinct)
                (λ _. Ensures-pure (v + 1)))

    retrain-IsTrained : Ensures (λ d. d ≡ d0) (λ n d. IsTrained d × (n ≡ v + 1)) (retrain f u user)
    unfolding retrain training_samples stores
    retrain-IsTrained =
        Ensures-bind (training_samples user) _ (Ensures-query (select_samples user)) (λ samples.
          Ensures-bind (model_version user) _
            (version-Ensures user v (λ d. (d ≡ d0) × (samples ≡ select_samples user d))
              (λ d h. rw h.0 known))
            (λ current. Ensures-given (stores samples current) (λ d h.
              Ensures-weaken (stores samples current) (λ d' h'. h'.0.0) (λ n d' q. q)
                (stores-IsTrained samples current (h.0.1 ∙ ap (select_samples user) h.0.0) h.1))))

-- After a training, the model that is loaded is the one that the ratings of the database give, whatever
-- the order in which the rows are read: it has the version that the training returned, and for each
-- feature and value it holds in favour how often it stands in the listings that were liked, and against,
-- in those that were not. The generation must be new: no row of it is there before.
pub retrain-load :
    (f : FloatOps) (u : Casing) (user v n : ℕ) (name value : Text) (w w' : World) (m : Weights)
    → select_version user w.db ≡ some v
    → any (of_version user (v + 1)) w.db.model_weights ≡ false
    → (retrain f u user w).0 ≡ ok n
    → w'.db ≡ (retrain f u user w).1.db
    → (load user w').0 ≡ ok m
    → (m.version ≡ n)
      × ((evidence name value m.buckets).ups
          ≡ occurrences f u name value (filter liked (select_samples user w.db)))
      × ((evidence name value m.buckets).downs
          ≡ occurrences f u name value (filter disliked (select_samples user w.db)))
retrain-load f u user v n name value w w' m known unused trained same loaded =
    let (is_trained, en) = (retrain-IsTrained f u user v w.db known unused).at w refl n trained in
    let rows = new_rows f u user v w.db in
    let (ev, (before, eb)) =
      (load-Ensures user (v + 1) (map (new_weight user (v + 1)) rows) (ground arith)).at w'
        (subst (IsTrained f u user v w.db) (sym same) is_trained) m loaded in
    let one : count (is_row name value)
          (map weight_row (sort_stable before (map (new_weight user (v + 1)) rows)))
        ≤ 1 =
      omega (
        arith,
        sorted-count user (v + 1) name value before rows,
        IsDistinct-count name value rows (new_rows-IsDistinct f u user v w.db),
      ) in
    let held : evidence name value m.buckets
        ≡ evidence name value (train f u (select_samples user w.db) (new_weights (v + 1))).buckets =
      ap (evidence name value) eb
      ∙ load_rows-totals name value
          (map weight_row (sort_stable before (map (new_weight user (v + 1)) rows))) one
      ∙ sorted-totals user (v + 1) name value before rows
      ∙ new_rows-totals f u user v w.db name value in
    let (up, down) = train-counts f u name value (select_samples user w.db) (v + 1) in
    (ev ∙ sym en, ap (λ (b : Bucket). b.ups) held ∙ up, ap (λ (b : Bucket). b.downs) held ∙ down)

-- ===== src/Tests/Trained.antt =====
-- The model of the sample user, trained, stored and loaded.
use property_search.Prelude.{◌≡◌, refl, [], filter, codes, false, ascii_casing, text_eq}
use property_search.Store.{World, ok}
use property_search.Model.{listing, snapshot}
use property_search.Repo.Weights.{
  select_samples, select_weights, replace_weights, training_samples, model_version, active_weights,
}
use property_search.Score.{Weights, extract, load, load_rows, retrain}
use property_search.Score.Model.Evidence.{evidence}
use property_search.Score.Retrain.Counted.{liked, disliked, occurrences}
use property_search.Score.Retrain.Stored.{retrain-load}
use property_search.Tests.Samples.{world}
use property_search.Tests.Chatted.{whole_numbers}

abbrev after : World
after = (retrain whole_numbers ascii_casing 7 world).1

abbrev model : Weights
model = record { version = 1; buckets = load_rows (select_weights (λ a b. false) 7 1 after.db) [] }

trained_ok : (retrain whole_numbers ascii_casing 7 world).0 ≡ ok 1
unfolding retrain training_samples model_version replace_weights extract listing snapshot text_eq
trained_ok = refl

loaded_ok : (load 7 after).0 ≡ ok model
unfolding load retrain active_weights training_samples replace_weights extract listing snapshot
    text_eq
loaded_ok = refl

retrain-load_example :
    (model.version ≡ 1)
    × ((evidence (codes "banios") (codes "unknown") model.buckets).ups
        ≡ occurrences whole_numbers ascii_casing
            (codes "banios")
            (codes "unknown")
            (filter liked (select_samples 7 world.db)))
    × ((evidence (codes "banios") (codes "unknown") model.buckets).downs
        ≡ occurrences whole_numbers ascii_casing
            (codes "banios")
            (codes "unknown")
            (filter disliked (select_samples 7 world.db)))
retrain-load_example =
    retrain-load whole_numbers ascii_casing 7 0 1 (codes "banios") (codes "unknown") world after
      model refl refl trained_ok refl loaded_ok

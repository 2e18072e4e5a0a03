-- ===== src/Tests/Validated.antt =====
-- A pass of the validator over the sample searches.
use property_search.Prelude.{ℕ, ◌≤◌, ◌≡◌, refl, false, All, ◌==◌, [], ◌∷◌, arith, count}
use property_search.Store.{World, Validation}
use property_search.Repo.Searches.{
  has_id, SearchUrl, search_url, select_searches, select_pending, is_valid_status,
}
use property_search.Validate.{run_once, check_each, or_default}
use property_search.Validate.Watched.{pass, here, valid_empty-unwatched}
use property_search.Parser.{parse_with_stats}
use property_search.Validate.Judged.{AllJudged}
use property_search.Validate.Settled.{run_once-AllJudged}
use property_search.Tests.Samples.{world, db, search}
use property_search.Tests.Overlapped.{online}

-- A search that waits for its check, beside one that is settled.
abbrev waiting : World
waiting = record world {
  db = record db {
    search_urls = search ∷ record search { id = 2; validation_status = Validation.pending } ∷ [];
  };
}

one_row : (id : ℕ) → count (has_id id) waiting.db.search_urls ≤ 1
one_row id = ground arith

run_once-AllJudged_example :
    AllJudged online
      (or_default 3 5)
      waiting.db.search_urls
      (run_once online 3 0 waiting).1.db.search_urls
run_once-AllJudged_example = run_once-AllJudged online 3 0 waiting one_row

-- The page of the search is empty, and a pass follows.
abbrev after_check : World
after_check = (check_each online 3 0 (search_url search ∷ []) waiting).1

valid_empty-unwatched_example :
    let d = (run_once online 3 0 after_check).1.db in
    All
      (λ (x : SearchUrl). (x.id == 1) ≡ false)
      (select_searches (λ a b. false) 7 (λ r. is_valid_status r.validation_status) d)
    × All (λ (x : SearchUrl). (x.id == 1) ≡ false) (select_pending 20 5000 d)
unfolding parse_with_stats
valid_empty-unwatched_example =
    valid_empty-unwatched online 3 (search_url search) [] waiting 7 20 5000 (λ a b. false) _ one_row
      refl refl refl refl (pass here online 3 0 after_check refl)

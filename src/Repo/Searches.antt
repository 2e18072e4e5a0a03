-- ===== src/Repo/Searches.antt =====
-- The statements on `search_urls`: internal/repo/repo.go and onboarding.go.
pub mod Limits
pub mod Concurrent
use property_search.Prelude.{
  ℕ, suc, Text, ◌≡◌, Bool, true, false, not, ◌+◌, ◌*◌, ◌&&◌, ◌||◌, List, [], ◌∷◌, ◌++◌, map, Option,
  none, some, ltb, leb, ◌==◌, if◌then◌else◌, filter, any, find?, update, count, take, sort_stable,
  text_eq,
}
use property_search.Store.{
  Validation, pending, retrying, valid, UserRow, SearchRow, Db, World, Env, Action, Error, Result,
  ok, err, driver, foreign_key, unique_violation, bad_url, limit_reached, label_taken, no_row,
  raise, pure, lift, query, exec, exec_result, transaction, now, ◌>>=◌, ◌>>◌,
}
use property_search.Repo.Users.{has_user, is_user}

-- `MaxSearchURLsPerUser`
abbrev pub max_search_urls_per_user : ℕ
max_search_urls_per_user = 5

abbrev pub owned : ℕ → SearchRow → Bool
owned user r = r.user_id == user

-- The keys of the two unique indexes.
abbrev pub same_url : ℕ → Text → SearchRow → Bool
same_url user norm r = r.user_id == user && text_eq r.url_norm norm

abbrev pub labelled : ℕ → Text → SearchRow → Bool
labelled user label r = r.user_id == user && text_eq r.label label

abbrev pub has_id : ℕ → SearchRow → Bool
has_id search r = r.id == search

abbrev pub new_search : ℕ → ℕ → Text → Text → Text → SearchRow
new_search id user label url norm = record {
  id = id;
  user_id = user;
  label = label;
  url = url;
  url_norm = norm;
  validation_status = pending;
  attempts = 0;
  next_check_at = none;
  last_fetch_status = none;
  last_card_count = none;
  last_checked_at = none;
}

-- INSERT … ON CONFLICT (user_id, url_norm) DO UPDATE SET label = EXCLUDED.label RETURNING id, under
-- UNIQUE (user_id, label) and the reference to `users`.
unfoldable pub insert_search : ℕ → Text → Text → Text → Db → Result ℕ × Db
insert_search user label url norm d = elim (find? (same_url user norm) d.search_urls) [
  | some s ↦
      if any (λ r. labelled user label r && not (same_url user norm r)) d.search_urls
      then (err unique_violation, d)
      else (
        ok s.id,
        record d {
          search_urls = update (same_url user norm) (λ r. record r { label = label }) d.search_urls;
        },
      )
  | none ↦
      if not (has_user user d)
      then (err foreign_key, d)
      else if any (labelled user label) d.search_urls
      then (err unique_violation, d)
      else (
        ok d.next_search_id,
        record d {
          search_urls = d.search_urls ++ new_search d.next_search_id user label url norm ∷ [];
          next_search_id = suc d.next_search_id;
        },
      )
]

-- `SearchURL`, what the selects return.
pub record SearchUrl : Type 0 where
  pub id : ℕ
  pub label : Text
  pub url : Text
  pub url_norm : Text
  pub validation_status : Validation
  pub attempts : ℕ

abbrev pub search_url : SearchRow → SearchUrl
search_url r = record {
  id = r.id;
  label = r.label;
  url = r.url;
  url_norm = r.url_norm;
  validation_status = r.validation_status;
  attempts = r.attempts;
}

-- `listSearchURLs` with its extra condition; ORDER BY label in the database's collation.
abbrev pub select_searches : (Text → Text → Bool) → ℕ → (SearchRow → Bool) → Db → List SearchUrl
select_searches collate user extra_where d = map search_url (
    sort_stable (λ (a b : SearchRow). collate a.label b.label)
      (filter (λ (r : SearchRow). r.user_id == user && extra_where r) d.search_urls))

unfoldable pub list_search_urls_where : ℕ → (SearchRow → Bool) → Action (List SearchUrl)
list_search_urls_where user extra_where w = query (select_searches w.env.collate user extra_where) w

-- `Repo.ListSearchURLs`
unfoldable pub list_search_urls : ℕ → Action (List SearchUrl)
unfolding list_search_urls_where
list_search_urls user = list_search_urls_where user (λ r. true)

abbrev pub is_valid_status : Validation → Bool
is_valid_status valid = true
is_valid_status _ = false

-- `Repo.ListValidSearchURLs`
unfoldable pub list_valid_search_urls : ℕ → Action (List SearchUrl)
unfolding list_search_urls_where
list_valid_search_urls user = list_search_urls_where user (λ r. is_valid_status r.validation_status)

-- A violated unique index is read as a taken label, any other error is passed on.
abbrev pub label_error : Result ℕ × Db → Result ℕ × Db
label_error (ok id, d) = (ok id, d)
label_error (err unique_violation, d) = (err label_taken, d)
label_error (err e, d) = (err e, d)

abbrev pub lock_user : ℕ → Action (Unit {0})
lock_user user = query (λ d. tt)

abbrev pub or_bad_url : Option Text → Action Text
or_bad_url none = raise bad_url
or_bad_url (some norm) = pure norm

-- What `AddSearchURLChecked` does once it knows the count, and whether the URL is there.
abbrev pub insert_checked : ℕ → Text → Text → Text → ℕ → Bool → Action ℕ
insert_checked user label raw_url norm n existing =
    if not existing && leb max_search_urls_per_user n
    then raise limit_reached
    else exec_result (λ d. label_error (insert_search user label raw_url norm d))

-- The counting and the insert of `AddSearchURLChecked`, inside its transaction.
unfoldable pub add_checked : ℕ → Text → Text → Text → Action ℕ
unfolding insert_search
add_checked user label raw_url norm = do
  lock_user user
  n ← query (λ d. count (owned user) d.search_urls)
  existing ← query (λ d. any (same_url user norm) d.search_urls)
  insert_checked user label raw_url norm n existing

module _ (normalize : Text → Option Text) where
  -- `Repo.AddSearchURL`
  unfoldable pub add_search_url : ℕ → Text → Text → Action ℕ
  unfolding insert_search
  add_search_url user label raw_url = do
    norm ← or_bad_url (normalize raw_url)
    exec_result (insert_search user label raw_url norm)

  -- `Repo.AddSearchURLChecked`
  unfoldable pub add_search_url_checked : ℕ → Text → Text → Action ℕ
  unfolding add_checked
  add_search_url_checked user label raw_url = do
    norm ← or_bad_url (normalize raw_url)
    transaction (add_checked user label raw_url norm)

abbrev pub update_search : ℕ → (SearchRow → SearchRow) → Db → Db
update_search search f d = record d { search_urls = update (has_id search) f d.search_urls }

-- `Repo.MarkSearchURLValid`
unfoldable pub mark_search_url_valid : ℕ → Action (Unit {0})
mark_search_url_valid search = exec (
    update_search search
      (λ r. record r { validation_status = valid; attempts = 0; next_check_at = none }))

abbrev pub second : ℕ
second = 1_000_000_000

abbrev pub next_check : ℕ → ℕ → Option ℕ
next_check at seconds = if ltb 0 seconds then some (at + seconds * second) else none

-- `Repo.SetSearchURLValidation`
unfoldable pub set_search_url_validation : ℕ → Validation → ℕ → Action (Unit {0})
set_search_url_validation search status seconds = do
  at ← now
  exec (
      update_search search (λ r. record r {
        validation_status = status;
        attempts = r.attempts + 1;
        next_check_at = next_check at seconds;
        last_checked_at = some at;
      }))

abbrev pub is_unsettled : Validation → Bool
is_unsettled pending = true
is_unsettled retrying = true
is_unsettled _ = false

abbrev pub is_due : ℕ → Option ℕ → Bool
is_due at none = true
is_due at (some t) = leb t at

-- ORDER BY next_check_at NULLS FIRST
abbrev checked_before : SearchRow → SearchRow → Bool
checked_before a b = elim a.next_check_at [
  | none ↦ elim b.next_check_at [ none ↦ false | some _ ↦ true ]
  | some s ↦ elim b.next_check_at [ none ↦ false | some t ↦ ltb s t ]
]

abbrev pub select_pending : ℕ → ℕ → Db → List SearchUrl
select_pending limit at d = map search_url (
    take limit (
      sort_stable checked_before (
        filter (λ (r : SearchRow). is_unsettled r.validation_status && is_due at r.next_check_at)
          d.search_urls)))

-- `Repo.PendingValidations`
unfoldable pub pending_validations : ℕ → Action (List SearchUrl)
pending_validations limit = do at ← now; query (select_pending limit at)

abbrev owner_of : SearchRow → Db → Option (ℕ × ℕ)
owner_of s d = elim (find? (is_user s.user_id) d.users) [
  | none ↦ none
  | some u ↦ some (u.user_id, u.chat_id)
]

abbrev select_owner : ℕ → Db → Option (ℕ × ℕ)
select_owner search d = elim (find? (has_id search) d.search_urls) [
  | none ↦ none
  | some s ↦ owner_of s d
]

abbrev pub or_no_row : {A : Type 0} → Option A → Action A
or_no_row none = raise no_row
or_no_row (some a) = pure a

-- `Repo.SearchURLOwner`
unfoldable pub search_url_owner : ℕ → Action (ℕ × ℕ)
search_url_owner search = do found ← query (select_owner search); or_no_row found

-- DELETE, with the cascade into `listing_sources`.
abbrev pub delete_search : ℕ → Text → Db → Result Bool × Db
delete_search user label d = (
  ok (any (labelled user label) d.search_urls),
  record d {
    search_urls = filter (λ r. not (labelled user label r)) d.search_urls;
    listing_sources =
        filter
          (λ r. not (any (λ s. labelled user label s && has_id r.search_url_id s) d.search_urls))
          d.listing_sources;
  },
)

-- `Repo.RemoveSearchURL`
unfoldable pub remove_search_url : ℕ → Text → Action Bool
remove_search_url user label = exec_result (delete_search user label)

abbrev pub with_stats : ℕ → ℕ → ℕ → SearchRow → SearchRow
with_stats status cards at r = record r {
  last_fetch_status = some status;
  last_card_count = some cards;
  last_checked_at = some at;
}

-- `Repo.UpdateSearchURLStats`
unfoldable pub update_search_url_stats : ℕ → ℕ → ℕ → Action (Unit {0})
update_search_url_stats search status cards = do
  at ← now
  exec (update_search search (with_stats status cards at))

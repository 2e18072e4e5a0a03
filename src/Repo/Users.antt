-- ===== src/Repo/Users.antt =====
-- The statements on `users`: internal/repo/repo.go, onboarding.go and users.go.
pub mod Deleted
use property_search.Prelude.{
  ℕ, Text, ◌≡◌, Bool, true, false, not, ◌&&◌, List, [], ◌∷◌, ◌++◌, map, Option, none, some, ltb,
  ◌==◌, if◌then◌else◌, filter, any, find?, update, sort_stable,
}
use property_search.Store.{
  State, ready, stopped, idle, UserRow, SearchRow, SourceRow, DeliveryRow, RatingRow, WeightsRow,
  DigestRow, Db, Action, Error, unknown_user, raise, pure, query, exec, exec_result, ok, err,
  Result, ◌>>=◌, ◌>>◌,
}

abbrev pub is_user : ℕ → UserRow → Bool
is_user user r = r.user_id == user

abbrev pub has_user : ℕ → Db → Bool
has_user user d = any (is_user user) d.users

-- A row of `users` with the defaults of the schema: active since migration 0006.
abbrev pub new_user : ℕ → ℕ → UserRow
new_user user chat = record {
  user_id = user;
  chat_id = chat;
  state = idle;
  state_data = [];
  active = true;
  active_model_version = 0;
}

abbrev pub insert_user : ℕ → ℕ → Db → Db
insert_user user chat d =
    if has_user user d then d else record d { users = d.users ++ new_user user chat ∷ [] }

-- `Repo.EnsureUser`
unfoldable pub ensure_user : ℕ → ℕ → Action (Unit {0})
ensure_user user chat = exec (insert_user user chat)

-- `UserState`, what `Repo.GetUser` returns; `none` is the nil pointer.
pub record UserState : Type 0 where
  pub user_id : ℕ
  pub chat_id : ℕ
  pub state : State
  pub state_data : List (Text × Text)
  pub active : Bool

abbrev pub user_state : UserRow → UserState
user_state r = record {
  user_id = r.user_id;
  chat_id = r.chat_id;
  state = r.state;
  state_data = r.state_data;
  active = r.active;
}

abbrev pub select_user : ℕ → Db → Option UserState
select_user user d = elim (find? (is_user user) d.users) [
  | none ↦ none
  | some r ↦ some (user_state r)
]

-- `Repo.GetUser`
unfoldable pub get_user : ℕ → Action (Option UserState)
get_user user = query (select_user user)

abbrev pub update_state : ℕ → State → List (Text × Text) → Db → Result (Unit {0}) × Db
update_state user s scratch d =
    if has_user user d
    then (
      ok tt,
      record d {
        users = update (is_user user) (λ r. record r { state = s; state_data = scratch }) d.users;
      },
    )
    else (err unknown_user, d)

-- `Repo.SetUserState`: no row affected is an error.
unfoldable pub set_user_state : ℕ → State → List (Text × Text) → Action (Unit {0})
set_user_state user s scratch = exec_result (update_state user s scratch)

abbrev pub update_stopped : ℕ → Bool → Db → Db
update_stopped user stop d = record d {
  users = update (is_user user) (λ r. record r { state = if stop then stopped else ready }) d.users;
}

-- `Repo.SetUserStopped`
unfoldable pub set_user_stopped : ℕ → Bool → Action (Unit {0})
set_user_stopped user stop = exec (update_stopped user stop)

-- The searches of a user, by id.
abbrev pub owns_search : ℕ → ℕ → Db → Bool
owns_search user search d =
    any (λ (s : SearchRow). s.id == search && s.user_id == user) d.search_urls

-- DELETE FROM users, with each ON DELETE CASCADE of the schema.
abbrev pub delete_cascade : ℕ → Db → Db
delete_cascade user d = record d {
  users = filter (λ (r : UserRow). not (r.user_id == user)) d.users;
  search_urls = filter (λ (r : SearchRow). not (r.user_id == user)) d.search_urls;
  listing_sources =
      filter (λ (r : SourceRow). not (owns_search user r.search_url_id d)) d.listing_sources;
  deliveries = filter (λ (r : DeliveryRow). not (r.user_id == user)) d.deliveries;
  ratings = filter (λ (r : RatingRow). not (r.user_id == user)) d.ratings;
  model_weights = filter (λ (r : WeightsRow). not (r.user_id == user)) d.model_weights;
  digests = filter (λ (r : DigestRow). not (r.user_id == user)) d.digests;
}

-- `Repo.DeleteUser`
unfoldable pub delete_user : ℕ → Action (Unit {0})
delete_user user = exec (delete_cascade user)

abbrev is_stopped : State → Bool
is_stopped stopped = true
is_stopped _ = false

-- `User`, a delivery target.
pub record User : Type 0 where
  pub user_id : ℕ
  pub chat_id : ℕ

abbrev pub select_active : Db → List User
select_active d =
    map (λ (r : UserRow). record { user_id = r.user_id; chat_id = r.chat_id })
      (sort_stable (λ (a b : UserRow). ltb a.user_id b.user_id)
        (filter (λ (r : UserRow). r.active && not (is_stopped r.state)) d.users))

-- `Repo.ListActiveUsers`
unfoldable pub list_active_users : Action (List User)
list_active_users = query select_active

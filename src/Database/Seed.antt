-- ===== src/Database/Seed.antt =====
-- internal/db/seed.go: the settings and the operator's user that the start inserts.
pub mod Once
use property_search.Prelude.{
  ℕ, suc, ℤ, Text, codes, Bool, true, false, not, ◌||◌, List, [], ◌∷◌, ◌++◌, Option, none, some,
  any, text_eq, if◌then◌else◌, parse_int, is_empty,
}
use property_search.Store.{
  ready, valid, SettingRow, SearchRow, Db, Action, Error, Result, ok, err, bad_chat_id, bad_url,
  foreign_key, unique_violation, pure, raise, query, exec, exec_result, now, ◌>>=◌, ◌>>◌,
}
use property_search.Repo.Users.{has_user, new_user}
use property_search.Repo.Searches.{same_url, labelled, new_search}

-- `SeedURL`, `SeedInput`
pub record SeedUrl : Type 0 where
  pub label : Text
  pub url : Text

pub record SeedInput : Type 0 where
  pub chat_id : Text
  pub urls : List SeedUrl

-- The model's name of a BIGINT key, `searchurl.Normalize`, and the layout of an instant in RFC 3339.
pub record SeedOps : Type 0 where
  pub key_of : ℤ → ℕ
  pub normalize : Text → Option Text
  pub rfc3339 : ℕ → Text

abbrev pub has_setting : Text → List SettingRow → Bool
has_setting key rows = any (λ (r : SettingRow). text_eq r.key key) rows

-- INSERT INTO settings … ON CONFLICT (key) DO NOTHING
unfoldable pub insert_setting : Text → Text → Db → Db
insert_setting key value d =
    if has_setting key d.settings
    then d
    else record d { settings = d.settings ++ record { key = key; value = value } ∷ [] }

-- `globalSettings`
abbrev pub daily_hour_setting : SettingRow
daily_hour_setting = record { key = codes "daily_hour"; value = codes "09:00" }

abbrev pub max_daily_setting : SettingRow
max_daily_setting = record { key = codes "max_daily"; value = codes "15" }

-- A range over the map visits its two keys in either order.
abbrev pub global_settings : Bool → List SettingRow
global_settings true = daily_hour_setting ∷ max_daily_setting ∷ []
global_settings false = max_daily_setting ∷ daily_hour_setting ∷ []

abbrev pub bootstrap_key : Text
bootstrap_key = codes "bootstrap_seeded_at"

unfoldable pub seed_settings : List SettingRow → Action (Unit {0})
unfolding insert_setting
seed_settings [] = pure tt
seed_settings (s ∷ ss) = exec (insert_setting s.key s.value) >> seed_settings ss

unfoldable pub bootstrap_applied : Action Bool
bootstrap_applied = query (λ d. has_setting bootstrap_key d.settings)

unfoldable pub mark_bootstrap_applied : SeedOps → Action (Unit {0})
unfolding insert_setting
mark_bootstrap_applied o = do t ← now; exec (insert_setting bootstrap_key (o.rfc3339 t))

-- `parseChatID`
unfoldable pub parse_chat_id : SeedOps → Text → Action ℕ
unfolding parse_int
parse_chat_id o raw = elim (parse_int raw) [ none ↦ raise bad_chat_id | some n ↦ pure (o.key_of n) ]

-- INSERT INTO users … ON CONFLICT (user_id) DO NOTHING
abbrev pub insert_ready_user : ℕ → Db → Db
insert_ready_user user d =
    if has_user user d
    then d
    else record d { users = d.users ++ record (new_user user user) { state = ready } ∷ [] }

-- INSERT INTO search_urls … ON CONFLICT (user_id, url_norm) DO NOTHING, under UNIQUE (user_id, label)
-- and the reference to `users`.
unfoldable pub insert_seed_search : ℕ → Text → Text → Text → Db → Result (Unit {0}) × Db
insert_seed_search user label url norm d =
    if any (same_url user norm) d.search_urls
    then (ok tt, d)
    else if not (has_user user d)
    then (err foreign_key, d)
    else if any (labelled user label) d.search_urls
    then (err unique_violation, d)
    else (
      ok tt,
      record d {
        search_urls =
            d.search_urls
            ++ record (new_search d.next_search_id user label url norm) {
              validation_status = valid;
            }
              ∷ [];
        next_search_id = suc d.next_search_id;
      },
    )

abbrev pub normalized : SeedOps → Text → Action Text
normalized o url = elim (o.normalize url) [ none ↦ raise bad_url | some norm ↦ pure norm ]

unfoldable pub seed_searches : SeedOps → ℕ → List SeedUrl → Action (Unit {0})
unfolding insert_seed_search
seed_searches o user [] = pure tt
seed_searches o user (u ∷ us) = do
  norm ← normalized o u.url
  exec_result (insert_seed_search user u.label u.url norm)
  seed_searches o user us

unfoldable pub seed_user : SeedOps → SeedInput → Action (Unit {0})
unfolding seed_searches parse_chat_id
seed_user o input = do
  user ← parse_chat_id o input.chat_id
  exec (insert_ready_user user)
  seed_searches o user input.urls

abbrev pub no_urls : List SeedUrl → Bool
no_urls [] = true
no_urls (_ ∷ _) = false

unfoldable pub bootstrap_unless : SeedOps → SeedInput → Bool → Action (Unit {0})
unfolding seed_user mark_bootstrap_applied
bootstrap_unless o input true = pure tt
bootstrap_unless o input false = seed_user o input >> mark_bootstrap_applied o

-- `Seed` after the settings: without a chat or a URL there is no user to insert.
unfoldable pub bootstrap : SeedOps → SeedInput → Action (Unit {0})
unfolding bootstrap_applied bootstrap_unless
bootstrap o input =
    if is_empty input.chat_id || no_urls input.urls
    then pure tt
    else bootstrap_applied >>= bootstrap_unless o input

-- `Seed`
unfoldable pub seed : SeedOps → Bool → SeedInput → Action (Unit {0})
unfolding seed_settings bootstrap
seed o order input = seed_settings (global_settings order) >> bootstrap o input

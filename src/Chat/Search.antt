-- ===== src/Chat/Search.antt =====
-- search.go: /buscar, a run that the user asks for. The map of the last runs is the poller's memory.
pub mod Cooldown
pub mod Indexing
pub mod Origin
use property_search.Prelude.{
  ℕ, zero, suc, Text, Bool, true, false, not, ◌&&◌, ◌||◌, ◌+◌, ◌-◌, ◌*◌, ◌/◌, ◌%◌, ◌==◌, ◌++◌, List,
  [], ◌∷◌, Option, none, some, ltb, leb, if◌then◌else◌, codes, itoa, length, find?, any, update,
}
use property_search.Store.{
  State, stopped, LastSearch, World, Action, Error, Result, ok, err, raise, pure, attempt, now,
  ◌>>=◌, ◌>>◌,
}
use property_search.Repo.Users.{UserState, get_user}
use property_search.Repo.Searches.{second, SearchUrl, list_valid_search_urls}
use property_search.Digest.{Ran}
use property_search.Chat.Updates.{send_text}

-- `searchCooldown`
abbrev pub search_cooldown : ℕ
search_cooldown = 3600 * second

abbrev pub is_last : ℕ → LastSearch → Bool
is_last user r = r.user_id == user

abbrev pub last_search_of : ℕ → List LastSearch → Option ℕ
last_search_of user m = elim (find? (is_last user) m) [ none ↦ none | some r ↦ some r.at ]

-- `lastSearch.Store`
unfoldable pub store_last : ℕ → ℕ → List LastSearch → List LastSearch
store_last user at m =
    if any (is_last user) m
    then update (is_last user) (λ r. record r { at = at }) m
    else m ++ record { user_id = user; at = at } ∷ []

-- What `claimSearchRun` answers: granted, or how long to wait.
pub data Claim : Type 0 where
  granted : Claim
  wait : ℕ → Claim

-- `claimSearchRun`; the clock does not go back, so the difference of the instants is not negative.
unfoldable pub claim_search_run : ℕ → ℕ → List LastSearch → Claim × List LastSearch
unfolding store_last
claim_search_run user at m = elim (last_search_of user m) [
  | none ↦ (granted, store_last user at m)
  | some last ↦
      if ltb (at - last) search_cooldown
      then (wait (search_cooldown - (at - last)), m)
      else (granted, store_last user at m)
]

abbrev pub minute : ℕ
minute = 60 * second

-- `minutesCeil`
unfoldable pub minutes_ceil : ℕ → ℕ
minutes_ceil d = if d % minute == 0 then d / minute else d / minute + 1

-- `searchResultText`
unfoldable pub search_result_text : ℕ → Text
search_result_text n =
    if n == 0
    then codes "No hay publicaciones nuevas por ahora."
    else if n == 1
    then codes "✅ Listo, te mandé 1 publicación nueva."
    else codes "✅ Listo, te mandé " ++ (itoa n ++ codes " publicaciones nuevas.")

abbrev is_stopped : State → Bool
is_stopped stopped = true
is_stopped _ = false

-- Why /buscar does not run, by its first guard that fails.
pub data Refusal : Type 0 where
  not_started paused not_enabled no_searches no_runner : Refusal
  too_soon : ℕ → Refusal

unfoldable pub refusal_text : Refusal → Text
unfolding minutes_ceil
refusal_text not_started = codes "Todavía no arrancamos. Mandá /start y te guío."
refusal_text paused =
    codes "Tenés las notificaciones pausadas. Mandá /start para reanudarlas y volvé a pedirme."
refusal_text not_enabled =
    codes "Todavía no habilité tu cuenta para notificaciones. Cuando lo haga, te llegan solas."
refusal_text no_searches =
    codes
      "Todavía no tengo búsquedas validadas tuyas. Sumá una con /addurl o esperá a que termine la validación."
refusal_text no_runner = codes "No puedo correr la búsqueda ahora mismo."
refusal_text (too_soon d) =
    codes "Recién corrí una búsqueda tuya. Probá de nuevo en "
    ++ (itoa (minutes_ceil d) ++ codes " min.")

-- The guards on the user.
unfoldable pub refuse_user : Option UserState → Option Refusal
refuse_user none = some not_started
refuse_user (some u) =
    if is_stopped u.state then some paused else if not u.active then some not_enabled else none

abbrev run_text : ℕ → Option Error → Text
run_text sent none = search_result_text sent
run_text sent (some _) =
    codes "⚠" ++ (0xfe0f ∷ codes " No pude completar la búsqueda. Probá de nuevo más tarde.")

abbrev pub report : ℕ → Ran → Action (Unit {0})
report chat r = do attempt (send_text chat (run_text r.sent r.failure)); pure tt

-- `claimSearchRun` on the poller's map, at the clock's instant.
abbrev pub claim : ℕ → Action Claim
claim user w =
    let (c, m) = claim_search_run user (w.env.clock w.step) w.last_search in
    (ok c, record w { last_search = m })

-- `runner` is `RunForUser`, `none` where no runner is set; the detached run takes place at the end.
module _ (runner : Option (ℕ → ℕ → Action Ran)) where
  abbrev pub run_and_report : ℕ → ℕ → Option (ℕ → ℕ → Action Ran) → Action (Unit {0})
  run_and_report user chat none = pure tt
  run_and_report user chat (some run) = do r ← run user chat; report chat r

  abbrev pub claimed : ℕ → ℕ → Claim → Action (Unit {0})
  claimed user chat (wait d) = send_text chat (refusal_text (too_soon d))
  claimed user chat granted = do
    send_text chat (codes "🔎 Buscando ahora…")
    run_and_report user chat runner

  abbrev pub has_runner : Option (ℕ → ℕ → Action Ran) → Bool
  has_runner none = false
  has_runner (some _) = true

  abbrev pub search_known : ℕ → ℕ → Option Refusal → Action (Unit {0})
  search_known user chat (some refusal) = send_text chat (refusal_text refusal)
  search_known user chat none = do
    searches ← list_valid_search_urls user
    if length searches == 0
        then send_text chat (refusal_text no_searches)
        else if not (has_runner runner)
        then send_text chat (refusal_text no_runner)
        else (do c ← claim user; claimed user chat c)

  -- `search`
  unfoldable pub search : ℕ → ℕ → Action (Unit {0})
  unfolding refuse_user claim_search_run refusal_text search_result_text
  search user chat = do found ← get_user user; search_known user chat (refuse_user found)

-- ===== src/Chat/Onboarding.antt =====
-- onboarding.go: the conversation by which a user registers searches. Each handler holds the user's
-- lock from its first to its last line, so it is one step here.
pub mod Limits
pub mod Portal
pub mod Origin
use property_search.Prelude.{
  ℕ, Text, Bool, true, false, not, ◌||◌, ◌==◌, ◌++◌, List, [], ◌∷◌, map, Option, none, some, ltb,
  leb, if◌then◌else◌, codes, text_eq, trim_space, has_prefix, to_lower, is_empty, itoa, length,
  join, any,
}
use property_search.Store.{
  State, idle, await_url, await_label, ready, stopped, Validation, Action, Result, ok, err,
  limit_reached, label_taken, raise, pure, attempt, ◌>>=◌, ◌>>◌,
}
use property_search.Repo.Users.{
  UserState, get_user, ensure_user, set_user_state, set_user_stopped, delete_user,
}
use property_search.Repo.Searches.{
  SearchUrl, max_search_urls_per_user, list_search_urls, add_search_url_checked, remove_search_url,
}
use property_search.Outside.{Outside}
use property_search.SearchUrl.{is_zonaprop_url, normalize, inject_recent_sort}
use property_search.Chat.Updates.{send_text}

abbrev pub welcome : Text
welcome = join (10 ∷ []) (
    codes "👋 Soy un buscador de propiedades que aprende de tus gustos."
    ∷ []
    ∷ codes "Mandame la *URL de búsqueda de Zonaprop* que querés que vigile."
    ∷ codes "La armás en Zonaprop con los filtros que quieras y copiás la barra del navegador."
    ∷ []
    ∷ codes "Después te pido un nombre corto para reconocerla."
    ∷ [])

abbrev pub ensure_new : ℕ → ℕ → Option UserState → Action (Unit {0})
ensure_new user chat none = ensure_user user chat
ensure_new user chat (some _) = pure tt

-- `startOnboarding`
unfoldable pub start_onboarding : ℕ → ℕ → Action (Unit {0})
start_onboarding user chat = do
  found ← get_user user
  ensure_new user chat found
  set_user_state user await_url []
  send_text chat welcome

abbrev pub url_key : Text
url_key = codes "url"

-- `user.StateData["url"]`, empty if it is missing.
abbrev pub state_url : List (Text × Text) → Text
state_url [] = []
state_url ((k, v) ∷ scratch) = let rest = state_url scratch in if text_eq k url_key then v else rest

abbrev limit_text : Text → Text
limit_text suffix =
    codes "Ya tenés "
    ++ (itoa max_search_urls_per_user
        ++ (codes " búsquedas, que es mi máximo. Borrá una con /rmurl " ++ suffix))

-- `afterRegistrationText`; the list is only asked for the hint about /addurl.
abbrev more_text : Result (List SearchUrl) → Text
more_text (err e) = []
more_text (ok ss) =
    if ltb (length ss) max_search_urls_per_user
    then codes "\nPodés agregar más con /addurl (hasta "
      ++ (itoa max_search_urls_per_user ++ codes ").")
    else []

abbrev registered_text : Text → Text → Text
registered_text label more =
    codes "✅ Guardé `"
    ++ (label
        ++ (codes "`. Estoy validando que la búsqueda responda; te aviso cuando esté.\n\n"
            ++ (codes
                  "Tené en cuenta que Zonaprop solo me muestra la *primera página* de resultados: vigilo las ~30 publicaciones más nuevas, que con el orden por fecha son las que importan.\n\n"
                ++ (codes "⚠"
                    ++ (0xfe0f
                        ∷ (codes
                              " Las notificaciones diarias no empiezan hasta que te habilite. Cuando lo haga, te llegan solas."
                            ++ more))))))

unfoldable pub after_registration_text : ℕ → Text → Action Text
after_registration_text user label = do
  searches ← attempt (list_search_urls user)
  pure (registered_text label (more_text searches))

-- What `completeSearchWithLabel` answers to the outcome of the insert.
unfoldable pub after_add : ℕ → ℕ → Text → Result ℕ → Action (Unit {0})
unfolding after_registration_text
after_add user chat label (ok id) = do
  set_user_state user ready []
  message ← after_registration_text user label
  send_text chat message
after_add user chat label (err limit_reached) = do
  attempt (set_user_state user ready [])
  send_text chat (limit_text (codes "y volvé a intentar."))
after_add user chat label (err label_taken) =
    send_text chat (codes "Ya usaste ese nombre. Elegí otro.")
after_add user chat label (err e) = raise e

abbrev bad_label_char : ℕ → Bool
bad_label_char c = c == b'|' || c == b','

-- How `completeSearchWithLabel` judges a trimmed label.
pub data LabelVerdict : Type 0 where
  unusable too_long usable : LabelVerdict

unfoldable pub judge_label : Text → LabelVerdict
judge_label label =
    if is_empty label || any bad_label_char label
    then unusable
    else if ltb 40 (length label)
    then too_long
    else usable

module _ (o : Outside) where
  -- A label for a URL that is there.
  unfoldable pub register_search : ℕ → ℕ → Text → Text → LabelVerdict → Action (Unit {0})
  unfolding after_add
  register_search user chat raw_url label unusable =
      send_text chat (codes "Ese nombre no me sirve. Usá uno corto sin `|` ni comas.")
  register_search user chat raw_url label too_long =
      send_text chat (codes "Muy largo. Probá con algo de hasta 40 caracteres.")
  register_search user chat raw_url label usable = do
    added ← attempt (add_search_url_checked (normalize o.net o.casing) user label raw_url)
    after_add user chat label added

  -- `completeSearchWithLabel`
  unfoldable pub complete_search_with_label : ℕ → ℕ → UserState → Text → Action (Unit {0})
  unfolding judge_label register_search
  complete_search_with_label user chat found text =
      let raw_url = state_url found.state_data in
      let label = trim_space text in
      if is_empty raw_url
      then (do
        attempt (set_user_state user await_url [])
        send_text chat (codes "Se me perdió la URL. Mandala de nuevo, por favor."))
      else register_search user chat raw_url label (judge_label label)

  abbrev pub sort_notice : Bool → Text
  sort_notice false = []
  sort_notice true =
      codes
        "\n\n(Le agregué el orden por más recientes, que es lo que hace que vea lo nuevo primero.)"

  abbrev keep_url : ℕ → ℕ → Option (Text × Bool) → Action (Unit {0})
  keep_url user chat none =
      send_text chat (codes "No pude leer esa URL. Probá copiarla de nuevo desde el navegador.")
  keep_url user chat (some (url, changed)) = do
    set_user_state user await_label ((url_key, url) ∷ [])
    send_text chat (
        codes "Perfecto. ¿Cómo la llamo? Un nombre corto, por ejemplo `San Isidro 3amb`."
        ++ sort_notice changed)

  -- `beginSearchFromURL`
  unfoldable pub begin_search_from_url : ℕ → ℕ → Text → Action (Unit {0})
  begin_search_from_url user chat raw_url =
      if not (is_zonaprop_url o.net o.casing raw_url)
      then send_text chat
          (codes "Esa URL no es de Zonaprop. Tiene que ser https://www.zonaprop.com.ar/...")
      else keep_url user chat (inject_recent_sort o.net o.casing raw_url)

  abbrev url_or_guidance : ℕ → ℕ → Text → Action (Unit {0})
  url_or_guidance user chat text =
      if not (has_prefix (to_lower o.casing (trim_space text)) (codes "http"))
      then send_text chat (codes "Mandame la URL de búsqueda de Zonaprop (empieza con https://).")
      else begin_search_from_url user chat text

  -- The `switch` of `handleConversationInput`; the empty state is among the known ones.
  unfoldable pub converse : ℕ → ℕ → UserState → Text → State → Action (Unit {0})
  unfolding begin_search_from_url complete_search_with_label
  converse user chat found text await_label = complete_search_with_label user chat found text
  converse user chat found text await_url = url_or_guidance user chat text
  converse user chat found text idle = url_or_guidance user chat text
  converse user chat found text ready = url_or_guidance user chat text
  converse user chat found text stopped = url_or_guidance user chat text
  converse user chat found text (State.other []) = url_or_guidance user chat text
  converse user chat found text (State.other (c ∷ s)) =
      send_text chat (codes "No entendí eso. Mandá /help para ver qué puedo hacer.")

  abbrev converse_known : ℕ → ℕ → Text → Option UserState → Action (Unit {0})
  converse_known user chat text none =
      send_text chat (codes "Todavía no arrancamos. Mandá /start y te guío.")
  converse_known user chat text (some found) = converse user chat found text found.state

  -- `handleConversationInput`
  unfoldable pub handle_conversation_input : ℕ → ℕ → Text → Action (Unit {0})
  unfolding converse
  handle_conversation_input user chat text = do
    found ← get_user user
    converse_known user chat text found

-- `validationLabel`
unfoldable pub validation_label : Validation → Text
validation_label Validation.valid = codes "vigilando"
validation_label Validation.valid_empty = codes "vigilando (hoy sin resultados)"
validation_label Validation.pending = codes "validando…"
validation_label Validation.retrying = codes "validando…"
validation_label Validation.invalid = codes "no pude validarla"
validation_label Validation.failed = codes "no pude validarla"
validation_label (Validation.other status) = status

abbrev search_line : SearchUrl → Text
search_line s =
    codes "\n· `"
    ++ (s.label
        ++ (codes "` — "
            ++ (validation_label s.validation_status ++ (codes "\n  " ++ (s.url ++ 10 ∷ [])))))

-- `listSearches`
unfoldable pub list_searches : ℕ → ℕ → Action (Unit {0})
unfolding validation_label
list_searches user chat = do
  searches ← list_search_urls user
  if length searches == 0
      then send_text chat (codes "No tenés búsquedas todavía. Mandá /start para agregar una.")
      else send_text chat (codes "📋 Tus búsquedas:\n" ++ join [] (map search_line searches))

-- `addURL`
unfoldable pub add_url : ℕ → ℕ → Action (Unit {0})
add_url user chat = do
  ensure_user user chat
  searches ← list_search_urls user
  if leb max_search_urls_per_user (length searches)
      then send_text chat (limit_text (codes "primero."))
      else (do
        set_user_state user await_url []
        send_text chat (codes "Mandame la URL de la nueva búsqueda."))

abbrev removed_text : Text → Bool → Text
removed_text label false =
    codes "No encontré una búsqueda llamada `" ++ (label ++ codes "`. Mirá /list.")
removed_text label true = codes "Listo, borré `" ++ (label ++ codes "`.")

-- `removeURL`
unfoldable pub remove_url : ℕ → ℕ → Text → Action (Unit {0})
remove_url user chat text =
    let label = trim_space text in
    if is_empty label
    then send_text chat (codes "Decime cuál: /rmurl <nombre>. Podés ver los nombres con /list.")
    else (do removed ← remove_search_url user label; send_text chat (removed_text label removed))

abbrev stopped_text : Bool → Text
stopped_text true =
    codes
      "Listo, pausé las notificaciones. Tus datos y calificaciones quedan guardados; /start reanuda."
stopped_text false = codes "Reanudé las notificaciones."

-- `setStopped`
unfoldable pub set_stopped : ℕ → ℕ → Bool → Action (Unit {0})
set_stopped user chat stop = do set_user_stopped user stop; send_text chat (stopped_text stop)

-- `deleteEverything`
unfoldable pub delete_everything : ℕ → ℕ → Action (Unit {0})
delete_everything user chat = do
  delete_user user
  send_text chat (
      codes
        "Borré tus búsquedas, entregas y calificaciones. Si querés empezar de nuevo, mandá /start.")

-- ===== src/Chat/Messages.antt =====
-- bot.go: the commands, /model and the dispatch of messages and updates.
pub mod Origin
use property_search.Prelude.{
  ℕ, Text, Bool, true, not, ◌||◌, ◌++◌, List, [], ◌∷◌, Option, none, some, ltb, if◌then◌else◌,
  codes, text_eq, is_empty, trim_space, fields, join, has_prefix,
}
use property_search.Store.{World, Action, pure, now, ◌>>=◌}
use property_search.Repo.Ratings.{rating_counts}
use property_search.Repo.Weights.{model_version}
use property_search.Score.{agreement, load, summary_text, bucket_summary}
use property_search.Outside.{Outside}
use property_search.Digest.{Ran}
use property_search.Chat.Updates.{Chat, Message, CallbackQuery, Update, send_text}
use property_search.Chat.Onboarding.{
  start_onboarding, handle_conversation_input, list_searches, add_url, remove_url, set_stopped,
  delete_everything,
}
use property_search.Chat.Ratings.{handle_callback}
use property_search.Chat.Search.{search}

-- `helpText`
abbrev help_text : Text
help_text = join (10 ∷ []) (
    codes "🤖 Buscador de propiedades con calificación"
    ∷ []
    ∷ codes "Te mando las publicaciones nuevas de tus búsquedas y las calificás con 👍/👎."
    ∷ codes "El link va siempre en la tarjeta; el 👍 además busca el teléfono del aviso."
    ∷ []
    ∷ codes "Comandos:"
    ∷ codes "/start — darte de alta o reanudar las notificaciones"
    ∷ codes "/addurl — sumar otra búsqueda"
    ∷ codes "/rmurl <nombre> — borrar una búsqueda"
    ∷ codes "/list — ver tus búsquedas y su estado"
    ∷ codes "/model — qué aprendió de tus calificaciones"
    ∷ codes "/stop — pausar las notificaciones"
    ∷ codes "/buscar — buscar publicaciones nuevas ahora"
    ∷ codes "/borrardatos — borrar todo lo tuyo"
    ∷ codes "/help — este mensaje"
    ∷ [])

-- The commands of `handleMessage`, by the first word of the text.
pub data Command : Type 0 where
  start help model list addurl rmurl stop buscar borrardatos : Command
  no_command no_such_command : Command

unfoldable pub command_of : Text → Command
command_of word =
    if text_eq word (codes "/start")
    then start
    else if text_eq word (codes "/help")
    then help
    else if text_eq word (codes "/model")
    then model
    else if text_eq word (codes "/list")
    then list
    else if text_eq word (codes "/addurl")
    then addurl
    else if text_eq word (codes "/rmurl")
    then rmurl
    else if text_eq word (codes "/stop")
    then stop
    else if text_eq word (codes "/buscar")
    then buscar
    else if text_eq word (codes "/borrardatos")
    then borrardatos
    else if has_prefix word (codes "/")
    then no_such_command
    else no_command

-- What the poller is wired to: the runner of /buscar, the look-up after a 👍, and the calendar day.
pub record Wiring : Type 1 where
  pub outside : Outside
  pub runner : Option (ℕ → ℕ → Action Ran)
  pub like : ℕ → ℕ → ℕ → World → World
  pub day_of : ℕ → ℕ

abbrev pub max_buckets_shown : ℕ
max_buckets_shown = 8

abbrev pub with_buckets : Text → Text → Text
with_buckets text buckets =
    if is_empty buckets then text else text ++ (codes "\n\nLo que más aprendió:\n" ++ buckets)

module _ (c : Wiring) where
  open c use {outside, runner, like, day_of}

  abbrev pub model_buckets : ℕ → ℕ → Text → Action Text
  model_buckets user version text =
      if ltb 0 version
      then (do w ← load user; pure (with_buckets text (bucket_summary w max_buckets_shown)))
      else pure text

  -- `handleModel`
  unfoldable pub handle_model : ℕ → ℕ → Action (Unit {0})
  handle_model user chat = do
    version ← model_version user
    (likes, dislikes) ← rating_counts user
    at ← now
    a ← agreement outside.floats day_of user at
    text ←
        model_buckets user version
          (summary_text outside.floats version likes dislikes a.fraction a.samples a.measured)
    send_text chat text

  -- The `switch` of `handleMessage`.
  unfoldable pub run_command : ℕ → ℕ → Text → List Text → Command → Action (Unit {0})
  unfolding handle_model
  run_command user chat text rest start = start_onboarding user chat
  run_command user chat text rest help = send_text chat help_text
  run_command user chat text rest model = handle_model user chat
  run_command user chat text rest list = list_searches user chat
  run_command user chat text rest addurl = add_url user chat
  run_command user chat text rest rmurl = remove_url user chat (join (32 ∷ []) rest)
  run_command user chat text rest stop = set_stopped user chat true
  run_command user chat text rest buscar = search runner user chat
  run_command user chat text rest borrardatos = delete_everything user chat
  run_command user chat text rest no_such_command =
      send_text chat (codes "No conozco ese comando. Probá con /help.")
  run_command user chat text rest no_command = handle_conversation_input outside user chat text

  abbrev pub run_words : ℕ → ℕ → Text → List Text → Action (Unit {0})
  run_words user chat text [] = pure tt
  run_words user chat text (word ∷ rest) = run_command user chat text rest (command_of word)

  abbrev pub is_private : Chat → Bool
  is_private chat = is_empty chat.kind || text_eq chat.kind (codes "private")

  abbrev group_text : Text
  group_text = codes "Solo funciono en chat privado: en un grupo se mezclarían los gustos de todos."

  abbrev pub message_in : Message → Option ℕ → Option Chat → Action (Unit {0})
  message_in msg none chat = pure tt
  message_in msg (some user) none = pure tt
  message_in msg (some user) (some chat) =
      if not (is_private chat)
      then send_text chat.id group_text
      else run_words user chat.id msg.text (fields (trim_space msg.text))

  -- `handleMessage`
  unfoldable pub handle_message : Message → Action (Unit {0})
  unfolding run_command command_of
  handle_message msg = message_in msg msg.sender msg.chat

  abbrev update_message : Option Message → Action (Unit {0})
  update_message none = pure tt
  update_message (some msg) = handle_message msg

  abbrev update_callback : Update → Option CallbackQuery → Action (Unit {0})
  update_callback u (some cq) = handle_callback like cq
  update_callback u none = update_message u.message

  -- `handleUpdate`
  unfoldable pub handle_update : Update → Action (Unit {0})
  unfolding handle_message
  handle_update u = update_callback u u.callback_query

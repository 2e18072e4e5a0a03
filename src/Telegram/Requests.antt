-- ===== src/Telegram/Requests.antt =====
-- internal/telegram/telegram.go, updates.go and menu.go: the requests to the Bot API, as their URL and
-- form, or what is printed instead without a token. The encodings of encoding/json are parameters.
pub mod Photos
use property_search.Prelude.{
  ℕ, ℤ, Text, codes, is_empty, Bool, true, false, not, ◌&&◌, List, [], ◌∷◌, ◌++◌, Option, none,
  some, itoa, Casing, if◌then◌else◌,
}
use property_search.Model.{Float, Delivery}
use property_search.Parser.{UrlOps}
use property_search.Telegram.Caption.{caption, rating_keyboard, photo_url_allowed}
use property_search.Telegram.Post.{Exchange, Notified, notify}

-- `Notifier`: what its requests depend on.
pub record Notifier : Type 0 where
  pub token : Text
  pub chat_id : Text
  pub api_base : Text
  pub has_img : Bool

abbrev pub Form : Type 0
Form = List (Text × Text)

-- What a method does: print, or post.
pub data Call : Type 0 where
  printed : Text → Form → Call
  posted : Text → Form → Call

pub record Encodings : Type 0 where
  pub keyboard_json : Text × Text → Text
  -- of the names and the descriptions, `BotCommand`
  pub commands_json : List (Text × Text) → Text

-- `dryRun`
abbrev pub dry_run : Notifier → Bool
dry_run n = is_empty n.token

abbrev pub method_url : Notifier → Text → Text
method_url n method = n.api_base ++ (codes "/bot" ++ (n.token ++ (codes "/" ++ method)))

-- `postForm`
unfoldable pub post_form : Notifier → Text → Form → Call
post_form n method form =
    if dry_run n then printed method form else posted (method_url n method) form

-- `SetMyCommands`, `SetChatMenuButton`
unfoldable pub set_my_commands : Encodings → Notifier → List (Text × Text) → Call
unfolding post_form
set_my_commands e n commands =
    post_form n (codes "setMyCommands") ((codes "commands", e.commands_json commands) ∷ [])

unfoldable pub set_chat_menu_button : Notifier → Call
unfolding post_form
set_chat_menu_button n =
    post_form n (codes "setChatMenuButton")
      ((codes "menu_button", codes "{\"type\":\"commands\"}") ∷ [])

-- `AnswerCallbackQuery`
unfoldable pub answer_callback_query : Notifier → Text → Text → Call
unfolding post_form
answer_callback_query n callback text = post_form n (codes "answerCallbackQuery") (
    (codes "callback_query_id", callback)
    ∷ (if is_empty text then [] else (codes "text", text) ∷ []))

-- `EditMessageCaption`
unfoldable pub edit_message_caption : Notifier → Text → ℕ → Text → Call
unfolding post_form
edit_message_caption n chat message text =
    post_form n (codes "editMessageCaption")
      ((codes "chat_id", chat) ∷ (codes "message_id", itoa message) ∷ (codes "caption", text) ∷ [])

-- `ClearRatingKeyboard`
unfoldable pub clear_rating_keyboard : Notifier → Text → ℕ → Call
unfolding post_form
clear_rating_keyboard n chat message = post_form n (codes "editMessageReplyMarkup") (
    (codes "chat_id", chat)
    ∷ (codes "message_id", itoa message)
    ∷ (codes "reply_markup", codes "{\"inline_keyboard\":[]}")
    ∷ [])

abbrev markup_field : Encodings → Option (Text × Text) → Form
markup_field e none = []
markup_field e (some buttons) = (codes "reply_markup", e.keyboard_json buttons) ∷ []

-- `sendMessage`
unfoldable pub send_message : Encodings → Notifier → Text → Text → Option (Text × Text) → Call
send_message e n chat text markup =
    posted (method_url n (codes "sendMessage"))
      ((codes "chat_id", chat) ∷ (codes "text", text) ∷ markup_field e markup)

-- `SendText`
unfoldable pub send_text_call : Encodings → Notifier → Text → Text → Call
unfolding send_message
send_text_call e n chat text =
    if dry_run n
    then printed (codes "text") ((chat, text) ∷ [])
    else send_message e n chat text none

-- The fields of `sendPhoto` next to the file.
unfoldable pub send_photo_fields : Encodings → Text → Text → Option (Text × Text) → Form
send_photo_fields e chat text markup =
    (codes "chat_id", chat) ∷ (codes "caption", text) ∷ markup_field e markup

-- `PollTimeout`, in seconds.
abbrev pub poll_timeout : ℕ
poll_timeout = 50

-- What came of the long poll: the request, the connection or the decoding fails, or there is an
-- envelope with `ok` and the updates.
pub data PollAnswer (U : Type 0) : Type 0 where
  no_request no_answer undecodable : PollAnswer U
  decoded : Bool → List U → PollAnswer U

-- `GetUpdates`: its query, and what it returns; `none` is an error.
unfoldable pub get_updates_query : ℕ → Form
get_updates_query offset =
    (codes "timeout", itoa poll_timeout)
    ∷ (codes "offset", itoa offset)
    ∷ (codes "allowed_updates", codes "[\"message\",\"callback_query\"]")
    ∷ []

unfoldable pub get_updates : {U : Type 0} → PollAnswer U → Option (List U)
get_updates no_request = none
get_updates no_answer = none
get_updates undecodable = none
get_updates (decoded true updates) = some updates
get_updates (decoded false updates) = none

-- How `Notify` ended: printed, or sent.
pub data Alert : Type 0 where
  alert_printed : Text → Option (Text × Text) → Text → Alert
  alert_sent : Text → Notified → Alert

abbrev pub target_of : Notifier → Text → Text
target_of n chat = if is_empty chat then n.chat_id else chat

-- The image that `Notify` downloads, if any.
unfoldable pub photo_request : UrlOps → Casing → Notifier → Delivery → Option Text
unfolding photo_url_allowed
photo_request net u n d =
    if not (dry_run n)
      && (not (is_empty d.item.photo_url)
          && (n.has_img && photo_url_allowed net u d.item.photo_url))
    then some d.item.photo_url
    else none

-- Whether a download left an image to send.
abbrev has_photo : Option Text → Option Text → Bool
has_photo none image = false
has_photo (some url) none = false
has_photo (some url) (some image) = not (is_empty image)

-- `Notify`: `image` is what the download gives, `exchanges` the answers of the API.
unfoldable pub notify_listing :
    UrlOps
    → Casing
    → (Float → Text)
    → Notifier
    → Text
    → Delivery
    → Option Text
    → List Exchange
    → Alert
unfolding photo_request caption rating_keyboard notify
notify_listing net u format_float n chat d image exchanges =
    if dry_run n
    then alert_printed (caption format_float d) (rating_keyboard d.listing_id) d.item.photo_url
    else alert_sent (target_of n chat)
        (notify (has_photo (photo_request net u n d) image) exchanges)

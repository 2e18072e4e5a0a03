-- ===== src/Chat/Ratings.antt =====
-- bot.go: a press of 👍 or 👎.
pub mod Guards
pub mod Buttons
use property_search.Prelude.{
  ℕ, zero, suc, ℤ, pos, negsuc, Text, Bool, true, false, not, ◌&&◌, ◌||◌, ◌+◌, ◌-◌, ◌*◌, ◌==◌, ◌++◌,
  List, [], ◌∷◌, Option, none, some, ltb, leb, if◌then◌else◌, codes, has_prefix, trim_prefix,
  parse_int, is_empty, contains,
}
use property_search.Store.{
  World, Action, Error, Event, Result, ok, err, callback_answered, keyboard_cleared, caption_edited,
  raise, pure, attempt, call_api, now, ◌>>=◌, ◌>>◌,
}
use property_search.Repo.Searches.{second}
use property_search.Repo.Ratings.{RatingState, rating_state, record_rating}
use property_search.Telegram.{utf16_len, caption_limit}
use property_search.Chat.Updates.{Chat, Message, CallbackQuery}

-- `LateTapWindow`
abbrev pub late_tap_window : ℕ
late_tap_window = 14 * 24 * 3600 * second

abbrev answer : Text → Text → Action (Unit {0})
answer callback message = call_api (callback_answered callback message)

-- `parseCallbackData`
unfoldable pub parse_callback_data : Text → Option ℕ
parse_callback_data payload =
    if has_prefix payload (codes "u:")
    then some 1
    else if has_prefix payload (codes "d:")
    then some 0
    else none

-- The listing of a callback: both prefixes are trimmed, one after the other.
unfoldable pub callback_listing : Text → Option ℤ
callback_listing payload = parse_int (trim_prefix (trim_prefix payload (codes "u:")) (codes "d:"))

-- `ratingAcknowledgement`, `ratingNotePrefix`, `ratingNote`
unfoldable pub rating_acknowledgement : ℕ → Text
rating_acknowledgement label = if label == 1 then codes "Guardado 👍" else codes "Guardado 👎"

abbrev pub rating_note_prefix : Text
rating_note_prefix = codes "✓"

unfoldable pub rating_note : ℕ → Text
rating_note label = if label == 1 then codes "✓ te gustó" else codes "✗ no te gustó"

-- `confirmRatingOnCard`: best effort.
unfoldable pub confirm_rating_on_card : ℕ → Message → ℕ → Action (Unit {0})
unfolding rating_note
confirm_rating_on_card chat msg label =
    let caption = msg.caption ++ (10 ∷ 10 ∷ rating_note label) in
    if is_empty msg.caption || contains msg.caption rating_note_prefix
    then pure tt
    else if ltb caption_limit (utf16_len caption)
    then pure tt
    else (do attempt (call_api (caption_edited chat msg.message_id caption)); pure tt)

-- The negative ids are in no row: the sequences of the schema begin at 1.
abbrev state_of : ℕ → ℤ → Action RatingState
state_of user (pos item) = rating_state user item
state_of user (negsuc n) =
    pure (record { is_delivered = false; sent_at = 0; has_rating = false; label = 0 })

abbrev row_of : ℤ → ℕ
row_of (pos item) = item
row_of (negsuc n) = 0

-- A press on a card that was delivered and has no rating. `like` is what the detached contact
-- look-up of a 👍 does; its outcome is only logged.
abbrev rate :
    (ℕ → ℕ → ℕ → World → World) → CallbackQuery → ℕ → ℕ → Message → ℕ → ℕ → Action (Unit {0})
rate like cq user chat msg item label = do
  answer cq.id (rating_acknowledgement label)
  record_rating user item label
  confirm_rating_on_card chat msg label
  call_api (keyboard_cleared chat msg.message_id)
  if label == 1 then (λ w. (ok tt, like user chat item w)) else pure tt

abbrev expire : CallbackQuery → ℕ → Message → Action (Unit {0})
expire cq chat msg = do
  answer cq.id (codes "Esa tarjeta expiró")
  call_api (keyboard_cleared chat msg.message_id)

module _ (like : ℕ → ℕ → ℕ → World → World) where
  -- The guards on the state of the delivery, in their order.
  unfoldable pub press :
      CallbackQuery → ℕ → ℕ → Message → ℕ → ℕ → RatingState → ℕ → Action (Unit {0})
  unfolding rating_acknowledgement confirm_rating_on_card
  press cq user chat msg item label state at =
      if not state.is_delivered
      then answer cq.id (codes "Esa publicación no es tuya")
      else if state.has_rating
      then answer cq.id (codes "Ya la calificaste")
      else if ltb late_tap_window (at - state.sent_at)
      then expire cq chat msg
      else rate like cq user chat msg item label

  abbrev press_listing : CallbackQuery → ℕ → Chat → Message → ℕ → Option ℤ → Action (Unit {0})
  press_listing cq user chat msg label none = answer cq.id (codes "No entendí ese botón")
  press_listing cq user chat msg label (some item) = do
    state ← state_of user item
    at ← now
    press cq user chat.id msg (row_of item) label state at

  abbrev press_label : CallbackQuery → ℕ → Chat → Message → Option ℕ → Action (Unit {0})
  press_label cq user chat msg none = answer cq.id (codes "No entendí ese botón")
  press_label cq user chat msg (some label) =
      press_listing cq user chat msg label (callback_listing cq.payload)

  abbrev press_in : CallbackQuery → ℕ → Message → Option Chat → Action (Unit {0})
  press_in cq user msg none = answer cq.id []
  press_in cq user msg (some chat) = press_label cq user chat msg (parse_callback_data cq.payload)

  abbrev press_by : CallbackQuery → Option ℕ → Option Message → Action (Unit {0})
  press_by cq none msg = answer cq.id []
  press_by cq (some user) none = answer cq.id []
  press_by cq (some user) (some msg) = press_in cq user msg msg.chat

  -- `handleCallback`
  unfoldable pub handle_callback : CallbackQuery → Action (Unit {0})
  unfolding press parse_callback_data callback_listing
  handle_callback cq = press_by cq cq.sender cq.message

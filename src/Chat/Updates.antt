-- ===== src/Chat/Updates.antt =====
-- internal/telegram/updates.go: what an update carries; a nil pointer is `none`. The ids
-- of users and of private chats are positive; an id of a group, negative in the code, is a number here too.
use property_search.Prelude.{ℕ, Text, Option}
use property_search.Store.{Action, text_sent, call_api}

pub record Chat : Type 0 where
  pub id : ℕ
  pub kind : Text

pub record Message : Type 0 where
  pub message_id : ℕ
  pub sender : Option ℕ
  pub chat : Option Chat
  pub text : Text
  pub caption : Text

pub record CallbackQuery : Type 0 where
  pub id : Text
  pub sender : Option ℕ
  pub message : Option Message
  pub payload : Text

pub record Update : Type 0 where
  pub update_id : ℕ
  pub message : Option Message
  pub callback_query : Option CallbackQuery

-- `SendText`
abbrev pub send_text : ℕ → Text → Action (Unit {0})
send_text chat message = call_api (text_sent chat message)

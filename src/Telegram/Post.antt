-- ===== src/Telegram/Post.antt =====
-- `Notifier.post` and `Notifier.Notify`. What the Bot API answers to each request is given.
pub mod Waits
use property_search.Prelude.{
  ℕ, zero, suc, Text, Bool, true, false, not, ◌&&◌, ◌||◌, ◌+◌, ◌-◌, ◌==◌, ◌++◌, List, [], ◌∷◌,
  Option, none, some, ltb, if◌then◌else◌,
}

-- What came of one request: no readable answer, or the envelope with its status, `ok` and
-- `retry_after`; `interrupted` says that the context ends during the wait that it asks for.
pub data Exchange : Type 0 where
  unreadable : Exchange
  envelope : ℕ → Bool → ℕ → Bool → Exchange

pub data PostError : Type 0 where
  network canceled : PostError
  api_error : ℕ → PostError

-- The error that `post` returns, if any, and the exchanges that are left. `pending` is a request that
-- the given exchanges do not answer.
pub data Posted : Type 0 where
  accepted : List Exchange → Posted
  refused : PostError → List Exchange → Posted
  pending : Posted

-- `post`: a wait that the API asks for is followed by the same request again.
unfoldable pub post : List Exchange → Posted
post [] = pending
post (unreadable ∷ rest) = refused network rest
post (envelope status ok retry_after interrupted ∷ rest) =
    let again = post rest in
    if ltb 0 retry_after
    then (if interrupted then refused canceled rest else again)
    else if ok
    then accepted rest
    else refused (api_error status) rest

-- How many requests `post` makes.
unfoldable pub requests : List Exchange → ℕ
requests [] = 1
requests (unreadable ∷ rest) = 1
requests (envelope status ok retry_after interrupted ∷ rest) =
    let again = requests rest in if ltb 0 retry_after && not interrupted then 1 + again else 1

-- How `Notify` ended, with the messages that the API accepted.
pub data Notified : Type 0 where
  delivered : ℕ → Notified
  failed : PostError → ℕ → Notified
  waiting : Notified

abbrev message_sent : ℕ → Posted → Notified
message_sent before (accepted rest) = delivered (before + 1)
message_sent before (refused e rest) = failed e before
message_sent before pending = waiting

abbrev is_bad_request : PostError → Bool
is_bad_request (api_error status) = status == 400
is_bad_request _ = false

-- The photo, then the text if the photo is refused as a bad request.
abbrev photo_sent : Posted → Notified
photo_sent (accepted rest) = delivered 1
photo_sent (refused e rest) = if is_bad_request e then message_sent 0 (post rest) else failed e 0
photo_sent pending = waiting

-- `Notify` with a token, after the throttle: `has_photo` says that the image was downloaded.
unfoldable pub notify : Bool → List Exchange → Notified
unfolding post
notify has_photo exchanges =
    if has_photo then photo_sent (post exchanges) else message_sent 0 (post exchanges)

-- `throttle`: how long to wait at `now` after the last send.
unfoldable pub throttle_wait : ℕ → ℕ → ℕ → ℕ
throttle_wait min_delay last_sent now = min_delay - (now - last_sent)

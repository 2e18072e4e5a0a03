-- ===== src/Telegram/Response.antt =====
-- `Notifier.do`: from what the HTTP client gives to the envelope of the Bot API, and what `post` makes of
-- it. The client, its wait for a context and JSON are given.
pub mod Accepted
use property_search.Prelude.{
  ℕ, ℤ, pos, negsuc, ◌*◌, Text, codes, Bool, true, false, ◌&&◌, not, ltb, List, [], ◌∷◌, ◌++◌, map,
  take, Option, none, some,
}
use property_search.Redact.{redact_text}
use property_search.Telegram.Post.{Exchange, unreadable, envelope, Posted, post}

-- `apiResponse`; what `result` holds is not read.
pub record ApiResponse : Type 0 where
  pub ok : Bool
  pub description : Text
  pub retry_after : ℤ

-- What `client.Do` and the reading of the body give: the text of the client's error, or the status with
-- the bytes of the body, `none` where reading them fails.
pub data HttpAnswer : Type 0 where
  transport_error : Text → HttpAnswer
  response : ℕ → Option (List ℕ) → HttpAnswer

pub data DoError : Type 0 where
  client_failed : Text → DoError
  body_unread body_undecoded : ℕ → DoError

pub data Done : Type 0 where
  decoded : ApiResponse → ℕ → Done
  not_done : DoError → Done

-- `1<<20`
abbrev pub body_limit : ℕ
body_limit = 1024 * 1024

abbrev seconds : ℤ → ℕ
seconds (pos n) = n
seconds (negsuc n) = 0

-- What `post` looks at; `interrupted` says that the context ends during a wait.
unfoldable pub exchange_of : Bool → Done → Exchange
exchange_of interrupted (not_done e) = unreadable
exchange_of interrupted (decoded r status) =
    envelope status r.ok (seconds r.retry_after) interrupted

module _ (decode : List ℕ → Option ApiResponse) (token : Text) where
  abbrev decoded_or : ℕ → Option ApiResponse → Done
  decoded_or status none = not_done (body_undecoded status)
  decoded_or status (some r) = decoded r status

  -- `do`: at most the first MiB of a body is read.
  unfoldable pub do_request : HttpAnswer → Done
  do_request (transport_error e) =
      not_done (client_failed (redact_text (codes "telegram: " ++ e) (token ∷ [])))
  do_request (response status none) = not_done (body_unread status)
  do_request (response status (some body)) = decoded_or status (decode (take body_limit body))

  -- `post` over the answers to its request and to the repetitions of it.
  unfoldable pub post_answers : List (Bool × HttpAnswer) → Posted
  unfolding do_request exchange_of
  post_answers answers =
      post (map (λ (interrupted, a). exchange_of interrupted (do_request a)) answers)

-- ===== src/Store/Actions.antt =====
-- What a method of the program is: an action on the database, the outside world and a log of what
-- was sent, that returns or fails. Whether a call of Postgres or Telegram fails, whether the context
-- is cancelled, and what the clock shows are the environment's choice, as functions of the number of
-- such calls made so far. A call that fails has not been applied.
use property_search.Prelude.{ℕ, suc, Text, Bool, List, [], ◌∷◌, ◌++◌, if◌then◌else◌}
use property_search.Model.{Delivery}
use property_search.Store.Tables.{Db}

-- The errors that the program tells apart.
pub data Error : Type 0 where
  driver api context_canceled : Error
  foreign_key unique_violation unknown_user bad_url limit_reached label_taken no_delivery no_row :
      Error
  lease_held nothing_fetched fetch_failed parse_failed bad_chat_id : Error

pub data Result {ℓ} (A : Type ℓ) : Type ℓ where
  ok : A → Result A
  err : Error → Result A

pub record Env : Type 0 where
  pub db_fails : ℕ → Bool
  pub api_fails : ℕ → Bool
  pub cancels : ℕ → Bool
  pub clock : ℕ → ℕ
  -- the order of the database's collation
  pub collate : Text → Text → Bool

-- What reached Telegram.
pub data Event : Type 0 where
  text_sent : ℕ → Text → Event
  listing_sent : ℕ → Delivery → Event
  callback_answered : Text → Text → Event
  keyboard_cleared : ℕ → ℕ → Event
  caption_edited : ℕ → ℕ → Text → Event
  commands_published : List (Text × Text) → Event
  menu_button_set : Event

-- One entry of the poller's `lastSearch`: when a user's last manual run was claimed.
pub record LastSearch : Type 0 where
  pub user_id : ℕ
  pub at : ℕ

-- `last_search` is memory of the process; no error undoes what was written there.
pub record World : Type 0 where
  pub db : Db
  pub env : Env
  pub step : ℕ
  pub log : List Event
  pub last_search : List LastSearch

abbrev pub Action : Type 0 → Type 0
Action A = World → Result A × World

module _ {A : Type 0} where
  abbrev pub pure : A → Action A
  pure a w = (ok a, w)

  abbrev pub raise : Error → Action A
  raise e w = (err e, w)

  abbrev pub lift : Result A → Action A
  lift r w = (r, w)

  -- The error of a call becomes a value: `if err := f(); err != nil { … }`.
  abbrev pub attempt : Action A → Action (Result A)
  attempt m w = let (r, w') = m w in (ok r, w')

-- What follows a call that has returned.
abbrev pub follow : {A B : Type 0} → Result A × World → (A → Action B) → Result B × World
follow (ok a, w) f = f a w
follow (err e, w) f = (err e, w)

infixl 5 ◌>>=◌ ◌>>◌
abbrev pub ◌>>=◌ : {A B : Type 0} → Action A → (A → Action B) → Action B
◌>>=◌ m f w = follow (m w) f

abbrev pub ◌>>◌ : {A B : Type 0} → Action A → Action B → Action B
m >> k = m >>= λ _. k

abbrev pub tick : World → World
tick w = record w { step = suc w.step }

-- `now()` in a statement, `time.Now()` in the program.
abbrev pub now : Action ℕ
now w = (ok (w.env.clock w.step), w)

-- `pool.Query`, `pool.QueryRow`: read the database.
abbrev pub query : {A : Type 0} → (Db → A) → Action A
query f w = if w.env.db_fails w.step then (err driver, tick w) else (ok (f w.db), tick w)

-- `pool.QueryRow(…).Scan` on a statement that writes and returns a value, or an error.
abbrev pub exec_result : {A : Type 0} → (Db → Result A × Db) → Action A
exec_result f w =
    if w.env.db_fails w.step
    then (err driver, tick w)
    else (let (r, d) = f w.db in (r, record (tick w) { db = d }))

-- `pool.Exec`: one statement.
abbrev pub exec : (Db → Db) → Action (Unit {0})
exec f w =
    if w.env.db_fails w.step then (err driver, tick w) else (ok tt, record (tick w) { db = f w.db })

abbrev pub begin_or_commit : Action (Unit {0})
begin_or_commit w = if w.env.db_fails w.step then (err driver, tick w) else (ok tt, tick w)

-- `defer tx.Rollback`: what fails before the commit leaves the database as it was.
abbrev pub roll_back : {A : Type 0} → Db → Result A × World → Result A × World
roll_back d (ok a, w) = (ok a, w)
roll_back d (err e, w) = (err e, record w { db = d })

-- `pool.Begin`, the statements, `tx.Commit`.
abbrev pub transaction : {A : Type 0} → Action A → Action A
transaction m w = roll_back w.db ((do begin_or_commit; a ← m; begin_or_commit; pure a) w)

-- `ctx.Err()`
abbrev pub canceled : Action (Unit {0})
canceled w = if w.env.cancels w.step then (err context_canceled, tick w) else (ok tt, tick w)

-- A call of the Bot API, logged when it went through.
abbrev pub call_api : Event → Action (Unit {0})
call_api e w =
    if w.env.api_fails w.step
    then (err api, tick w)
    else (ok tt, record (tick w) { log = w.log ++ e ∷ [] })

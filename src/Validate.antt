-- ===== src/Validate.antt =====
-- internal/validate/validator.go: the deep check of the searches that are due.
pub mod Backoff
pub mod Watched
pub mod Judged
pub mod Batch
pub mod Settled
use Prim.Native.Nat.{min}
use property_search.Prelude.{
  ℕ, zero, suc, Text, Bool, true, false, not, ◌&&◌, ◌||◌, ◌+◌, ◌*◌, ◌^◌, ◌==◌, ◌++◌, List, [], ◌∷◌,
  Option, none, some, ltb, leb, if◌then◌else◌, codes, itoa, length,
}
use property_search.Store.{
  Action, Error, Result, ok, err, Validation, text_sent, raise, pure, attempt, canceled, call_api,
  ◌>>=◌, ◌>>◌,
}
use property_search.Repo.Searches.{
  SearchUrl, mark_search_url_valid, set_search_url_validation, pending_validations,
  search_url_owner,
}
use property_search.Outside.{Outside, Page, page, broken, Parsed, fetch_page, read_page}
use property_search.Fetch.{ErrorKind, blocked}

-- `backoffSeconds`: 2^attempt minutes, at most a day.
unfoldable pub backoff_seconds : ℕ → ℕ
backoff_seconds attempt = min (2 ^ attempt * 60) (24 * 3600)

-- `Outcome`; a block and a transport failure share the status "retrying".
pub data Outcome : Type 0 where
  valid valid_empty retrying : Outcome

pub record Checked : Type 0 where
  pub outcome : Outcome
  pub cards : ℕ

abbrev pub verdict : Parsed → Checked
verdict p =
    if length p.listings == 0
    then record { outcome = Outcome.valid_empty; cards = 0 }
    else record { outcome = Outcome.valid; cards = length p.listings }

abbrev pub outage : Checked
outage = record { outcome = Outcome.retrying; cards = 0 }

-- What `check` makes of the answer; only a page that cannot be parsed is an error.
unfoldable pub classify : Outside → Text → Page → Action Checked
classify o url (broken kind) = pure outage
classify o url (page status cards) =
    if not (status == 200)
    then pure outage
    else do p ← read_page o url (page status cards); pure (verdict p)

-- `check`
unfoldable pub check : Outside → SearchUrl → Action Checked
unfolding classify
check o s = do answer ← fetch_page o s.url; classify o s.url answer

-- `notify`: best effort.
unfoldable pub notify : ℕ → Text → Action (Result (Unit {0}))
notify search message =
    attempt (do (user, chat) ← search_url_owner search; call_api (text_sent chat message))

abbrev valid_text : Text → Text
valid_text label = codes "✅ `" ++ (label ++ codes "` ya está validada: empiezo a vigilarla.")

abbrev empty_text : Text → Text
empty_text label =
    codes "✅ `" ++ (label ++ codes "` está validada, aunque ahora mismo no tenga resultados.")

abbrev invalid_text : Text → ℕ → Text
invalid_text label attempts =
    codes "⚠"
    ++ (0xfe0f ∷ codes " No pude validar `")
    ++ (label
        ++ (codes "` después de "
            ++ (itoa attempts
                ++ codes
                    " intentos. Fijate que la URL siga andando en el navegador, o borrala con /rmurl.")))

-- A check that found no listings yet: another try, or the end.
unfoldable pub settle_retrying : ℕ → SearchUrl → Action ℕ
unfolding backoff_seconds notify
settle_retrying max_attempts s =
    if leb max_attempts (s.attempts + 1)
    then (do
      set_search_url_validation s.id Validation.invalid 0
      notify s.id (invalid_text s.label (s.attempts + 1))
      pure 0)
    else (do
      set_search_url_validation s.id Validation.retrying (backoff_seconds (s.attempts + 1))
      pure 0)

-- The `switch` of `RunOnce`: how many searches became usable.
unfoldable pub settle : ℕ → SearchUrl → Outcome → Action ℕ
unfolding settle_retrying
settle max_attempts s Outcome.valid = do
  mark_search_url_valid s.id
  notify s.id (valid_text s.label)
  pure 1
settle max_attempts s Outcome.valid_empty = do
  set_search_url_validation s.id Validation.valid_empty 0
  notify s.id (empty_text s.label)
  pure 1
settle max_attempts s Outcome.retrying = settle_retrying max_attempts s

-- How a pass ended: the searches that became usable, and the error that ended it.
pub record Pass : Type 0 where
  pub became_valid : ℕ
  pub failure : Option Error

abbrev pub or_stop : ℕ → (ℕ → Action Pass) → Result ℕ → Action Pass
or_stop n continue (err e) = pure (record { became_valid = n; failure = some e })
or_stop n continue (ok k) = continue (n + k)

-- The loop of `RunOnce`.
unfoldable pub check_each : Outside → ℕ → ℕ → List SearchUrl → Action Pass
unfolding check settle
check_each o max_attempts n [] = pure (record { became_valid = n; failure = none })
check_each o max_attempts n (s ∷ ss) = do
  alive ← attempt canceled
  elim alive [
    | err e ↦ pure (record { became_valid = n; failure = some e })
    | ok _ ↦ (do
      checked ← attempt (check o s)
      elim checked [
        | err e ↦ check_each o max_attempts n ss
        | ok c ↦ (do
          settled ← attempt (settle max_attempts s c.outcome)
          or_stop n (λ m. check_each o max_attempts m ss) settled)
      ])
  ]

-- The defaults for what is not set.
abbrev pub or_default : ℕ → ℕ → ℕ
or_default n d = if n == 0 then d else n

-- `RunOnce`
unfoldable pub run_once : Outside → ℕ → ℕ → Action Pass
unfolding check_each
run_once o max_attempts batch_size = do
  pending ← pending_validations (or_default batch_size 20)
  check_each o (or_default max_attempts 5) 0 pending

-- ===== src/Digest/Daily.antt =====
-- `RunAll` and `RunDaily`.
use property_search.Prelude.{ℕ, Text, ◌+◌, List, [], ◌∷◌, Option, none, some}
use property_search.Store.{Action, Error, ok, err, pure, attempt, canceled, ◌>>=◌, ◌>>◌}
use property_search.Repo.Users.{User, list_active_users}
use property_search.Repo.Digests.{
  PendingRun, ensure_digest, pending_digests, start_digest, finish_digest,
}
use property_search.Outside.{Outside}
use property_search.Digest.Runner.{Ran, run_for_user}

-- What a user's cycle adds to the total of `RunAll`: nothing if it failed.
abbrev sent_ok : Ran → ℕ
sent_ok r = elim r.failure [ none ↦ r.sent | some _ ↦ 0 ]

unfoldable pub run_users : Outside → ℕ → ℕ → List User → Action Ran
run_users o max_per_run total [] = pure (record { sent = total; failure = none })
run_users o max_per_run total (u ∷ us) = do
  alive ← attempt canceled
  elim alive [
    | err e ↦ pure (record { sent = total; failure = some e })
    | ok _ ↦ (do
      r ← run_for_user o max_per_run u.user_id u.chat_id
      run_users o max_per_run (total + sent_ok r) us)
  ]

-- `RunAll`
unfoldable pub run_all : Outside → ℕ → Action Ran
unfolding run_users
run_all o max_per_run = do users ← list_active_users; run_users o max_per_run 0 users

-- The first loop of `RunDaily`: a row for every active user; a failure is logged.
unfoldable pub ensure_digests : ℕ → List User → Action (Unit {0})
ensure_digests date [] = pure tt
ensure_digests date (u ∷ us) = do attempt (ensure_digest u.user_id date); ensure_digests date us

abbrev message : Outside → Option Error → Option Text
message o none = none
message o (some e) = some (o.describe e)

-- One pending run: started, carried out and finished.
unfoldable pub run_pending_one : Outside → ℕ → PendingRun → Action ℕ
run_pending_one o max_per_run p = do
  started ← attempt (start_digest p.user_id p.run_date)
  elim started [
    | err e ↦ pure 0
    | ok _ ↦ (do
      r ← run_for_user o max_per_run p.user_id p.chat_id
      attempt (finish_digest p.user_id p.run_date r.sent (message o r.failure))
      pure r.sent)
  ]

unfoldable pub run_pending : Outside → ℕ → ℕ → List PendingRun → Action Ran
unfolding run_pending_one
run_pending o max_per_run total [] = pure (record { sent = total; failure = none })
run_pending o max_per_run total (p ∷ ps) = do
  alive ← attempt canceled
  elim alive [
    | err e ↦ pure (record { sent = total; failure = some e })
    | ok _ ↦ (do n ← run_pending_one o max_per_run p; run_pending o max_per_run (total + n) ps)
  ]

-- `RunDaily`
unfoldable pub run_daily : Outside → ℕ → ℕ → Action Ran
unfolding ensure_digests run_pending
run_daily o max_per_run date = do
  users ← list_active_users
  ensure_digests date users
  pending ← pending_digests date
  run_pending o max_per_run 0 pending

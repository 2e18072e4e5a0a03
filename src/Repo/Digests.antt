-- ===== src/Repo/Digests.antt =====
-- internal/repo/digests.go: one row for each user and day.
pub mod Resumed
use property_search.Prelude.{
  ℕ, Text, Bool, true, false, not, ◌&&◌, List, [], ◌∷◌, ◌++◌, Option, none, some, ltb, leb, ◌==◌,
  if◌then◌else◌, filter, any, find?, update, sort_stable, filter_map,
}
use property_search.Store.{
  RunStatus, running, done, DigestRow, Db, Action, Result, ok, err, foreign_key, query, exec,
  exec_result, now, ◌>>=◌,
}
use property_search.Repo.Users.{has_user, is_user}

abbrev pub is_run : ℕ → ℕ → DigestRow → Bool
is_run user date r = r.user_id == user && r.run_date == date

abbrev new_run : ℕ → ℕ → DigestRow
new_run user date = record {
  user_id = user;
  run_date = date;
  status = RunStatus.pending;
  started_at = none;
  finished_at = none;
  sent = 0;
  error = none;
}

unfoldable pub insert_digest : ℕ → ℕ → Db → Result (Unit {0}) × Db
insert_digest user date d =
    if any (is_run user date) d.digests
    then (ok tt, d)
    else if has_user user d
    then (ok tt, record d { digests = d.digests ++ new_run user date ∷ [] })
    else (err foreign_key, d)

-- `Repo.EnsureDigest`
unfoldable pub ensure_digest : ℕ → ℕ → Action (Unit {0})
unfolding insert_digest
ensure_digest user date = exec_result (insert_digest user date)

abbrev pub is_done : RunStatus → Bool
is_done done = true
is_done _ = false

-- `Repo.DigestFinished`
unfoldable pub digest_finished : ℕ → ℕ → Action Bool
digest_finished user date = query (λ d. any (λ r. is_run user date r && is_done r.status) d.digests)

-- `PendingRun`
pub record PendingRun : Type 0 where
  pub user_id : ℕ
  pub chat_id : ℕ
  pub run_date : ℕ

-- JOIN users: a run whose user is gone is dropped.
abbrev pub pending_run : Db → DigestRow → Option PendingRun
pending_run d r = elim (find? (is_user r.user_id) d.users) [
  | none ↦ none
  | some u ↦ some (record { user_id = r.user_id; chat_id = u.chat_id; run_date = r.run_date })
]

-- ORDER BY run_date, user_id
abbrev run_before : DigestRow → DigestRow → Bool
run_before a b =
    if a.run_date == b.run_date then ltb a.user_id b.user_id else ltb a.run_date b.run_date

unfoldable pub select_pending_runs : ℕ → Db → List PendingRun
select_pending_runs date d =
    filter_map (pending_run d) (
      sort_stable run_before
        (filter (λ r. not (is_done r.status) && leb r.run_date date) d.digests))

-- `Repo.PendingDigests`
unfoldable pub pending_digests : ℕ → Action (List PendingRun)
unfolding select_pending_runs
pending_digests date = query (select_pending_runs date)

abbrev pub update_run : ℕ → ℕ → (DigestRow → DigestRow) → Db → Db
update_run user date f d = record d { digests = update (is_run user date) f d.digests }

-- `Repo.StartDigest`
unfoldable pub start_digest : ℕ → ℕ → Action (Unit {0})
start_digest user date = do
  at ← now
  exec (
      update_run user date (λ r. record r { status = running; started_at = some at; error = none }))

-- The outcome that `FinishDigest` records: the status, and the error's message.
abbrev pub outcome : Option Text → RunStatus
outcome none = done
outcome (some _) = RunStatus.error

abbrev pub finish_row : ℕ → ℕ → Option Text → DigestRow → DigestRow
finish_row at n run_err r = record r {
  status = outcome run_err;
  finished_at = some at;
  sent = n;
  error = run_err;
}

-- `Repo.FinishDigest`
unfoldable pub finish_digest : ℕ → ℕ → ℕ → Option Text → Action (Unit {0})
finish_digest user date n run_err = do
  at ← now
  exec (update_run user date (finish_row at n run_err))

-- ===== src/Chat/Poller.antt =====
-- `Poller.Run`: the lease, the persisted offset, and the batches of updates. A handler is any action;
-- what `getUpdates` answers, batch by batch, is given.
pub mod Offset
pub mod Lapse
use property_search.Prelude.{
  ℕ, zero, suc, Text, Bool, true, false, not, ◌&&◌, ◌+◌, ◌==◌, ◌++◌, List, [], ◌∷◌, Option, none,
  some, ltb, leb, if◌then◌else◌,
}
use property_search.Store.{
  World, Action, Error, Result, ok, err, lease_held, raise, pure, attempt, canceled, follow, ◌>>=◌,
  ◌>>◌,
}
use property_search.Repo.Ratings.{
  acquire_poll_lease, release_poll_lease, last_update_id, advance_update_id,
}

-- `maxAttemptsPerUpdate`
abbrev pub max_attempts_per_update : ℕ
max_attempts_per_update = 3

-- The loop's variables: the offset, and the failures in a row of one update.
pub record Progress : Type 0 where
  pub offset : ℕ
  pub failures : ℕ
  pub failing_id : ℕ

-- `failures` and `failingID` after a failure of an update.
unfoldable pub count_failure : ℕ → Progress → Progress
count_failure id p =
    if id == p.failing_id
    then record p { failures = p.failures + 1 }
    else record p { failures = 1; failing_id = id }

-- After an update that was handled, or dropped after its last attempt.
abbrev pub moved_on : ℕ → Progress → Progress
moved_on id p = record { offset = id; failures = 0; failing_id = 0 }

-- How the loop over a batch ended: done, or stopped for a retry of the update.
pub data Batch : Type 0 where
  done : Progress → Batch
  retry : Progress → Batch

module _ {U : Type 0} (id_of : U → ℕ) (handle : U → Action (Unit {0})) where
  -- `failures` after the handler's answer.
  abbrev pub after_handler : U → Progress → Result (Unit {0}) → Progress
  after_handler u p (ok _) = p
  after_handler u p (err e) = count_failure (id_of u) p

  abbrev pub is_ok : Result (Unit {0}) → Bool
  is_ok (ok _) = true
  is_ok (err e) = false

  -- The loop over one batch. An update is left behind when it was handled, and after its last
  -- attempt; the offset is persisted behind it.
  unfoldable pub handle_batch : List U → Progress → Action Batch
  unfolding count_failure
  handle_batch [] p = pure (done p)
  handle_batch (u ∷ us) p = do
    r ← attempt (handle u)
    let q = after_handler u p r
    if not (is_ok r) && ltb q.failures max_attempts_per_update
        then pure (retry q)
        else (do advance_update_id (id_of u); handle_batch us (moved_on (id_of u) q))

  abbrev pub progress : Batch → Progress
  progress (done p) = p
  progress (retry p) = p

  -- What an answer of `getUpdates` leads to, before the next poll.
  unfoldable pub next_poll :
      Option (List U) → (Progress → Action (Unit {0})) → Progress → Action (Unit {0})
  unfolding handle_batch
  next_poll none again p = again p
  next_poll (some us) again p = do b ← handle_batch us p; again (progress b)

  abbrev pub while_alive : Result (Unit {0}) → Action (Unit {0}) → Action (Unit {0})
  while_alive (err e) again = pure tt
  while_alive (ok _) again = again

  -- The polls, one answer of `getUpdates` for each: `none` is a failed call. It ends when the
  -- context does, and here when the given answers run out.
  unfoldable pub poll : List (Option (List U)) → Progress → Action (Unit {0})
  unfolding next_poll
  poll [] p = pure tt
  poll (answer ∷ answers) p = do
    alive ← attempt canceled
    while_alive alive (next_poll answer (poll answers) p)

  -- `Run`
  unfoldable pub run : Text → List (Option (List U)) → Action (Unit {0})
  unfolding poll
  run holder answers = do
    acquired ← acquire_poll_lease holder
    if not acquired then raise lease_held else do
      ended ← attempt (do
        offset ← last_update_id
        poll answers (record { offset = offset; failures = 0; failing_id = 0 }))
      attempt (release_poll_lease holder)
      (λ w. (ended, w))

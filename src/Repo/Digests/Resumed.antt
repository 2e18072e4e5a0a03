-- ===== src/Repo/Digests/Resumed.antt =====
-- Which unfinished runs are resumed.
use property_search.Prelude.{ℕ, ◌≡◌, refl, Bool, List, [], ◌∷◌, Option, arith, filter_map}
use property_search.Store.{UserRow, DigestRow, Db}
use property_search.Repo.Users.{update_stopped}
use property_search.Repo.Digests.{PendingRun, pending_run, select_pending_runs}

filter_map-ext :
    (f g : DigestRow → Option PendingRun) (xs : List DigestRow)
    → ((r : DigestRow) → f r ≡ g r)
    → filter_map f xs ≡ filter_map g xs
filter_map-ext f g [] same = refl
filter_map-ext f g (x ∷ xs) same = ground (arith, same x, filter_map-ext f g xs same)

pending_run-update_stopped :
    (user : ℕ) (stop : Bool) (d : Db) (r : DigestRow)
    → pending_run (update_stopped user stop d) r ≡ pending_run d r
pending_run-update_stopped user stop d r = go d.users
  where
    go :
        (us : List UserRow)
        → pending_run (update_stopped user stop (record d { users = us })) r
          ≡ pending_run (record d { users = us }) r
    go [] = refl
    go (u ∷ us) = ground (arith, go us)

-- The unfinished runs that are resumed do not depend on whether a user has stopped the notifications:
-- stopping, or starting again, leaves them all as they were.
pub select_pending_runs-update_stopped :
    (user date : ℕ) (stop : Bool) (d : Db)
    → select_pending_runs date (update_stopped user stop d) ≡ select_pending_runs date d
unfolding select_pending_runs
select_pending_runs-update_stopped user date stop d =
    filter_map-ext _ _ _ (pending_run-update_stopped user stop d)

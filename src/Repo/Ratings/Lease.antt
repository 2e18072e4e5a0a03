-- ===== src/Repo/Ratings/Lease.antt =====
-- The poll lease of ratings.go.
use property_search.Prelude.{ℕ, ◌+◌, ◌≤◌, ◌<◌, Text, ◌≡◌, true, false, arith, text_eq, text_eq_refl}
use property_search.Store.{Db, ok}
use property_search.Repo.Ratings.{take_lease, drop_lease, delivery_lease_duration}

-- A poller that was granted the lease has it to itself for its duration: until then no other holder is
-- granted it, even by releasing a lease it does not hold, while the holder itself can renew it; after
-- that anybody is granted it.
pub take_lease-exclusive :
    (a b : Text) (t t' late : ℕ) (d : Db)
    → text_eq a b ≡ false
    → t' ≤ t + delivery_lease_duration
    → t + delivery_lease_duration < late
    → (take_lease a t d).0 ≡ ok true
    → let held = (take_lease a t d).1 in
      ((take_lease b t' held).0 ≡ ok false)
      × ((take_lease b t' (drop_lease b held)).0 ≡ ok false)
      × ((take_lease a t' held).0 ≡ ok true)
      × ((take_lease b late held).0 ≡ ok true)
unfolding take_lease drop_lease
take_lease-exclusive a b t t' late d ne soon after h =
    (ground arith, ground arith, ground (arith, text_eq_refl a), ground arith)

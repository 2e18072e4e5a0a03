-- ===== src/Repo/Ratings.antt =====
-- internal/repo/ratings.go: ratings, the poller's lease and its offset.
pub mod Lease
pub mod Atomic
use Prim.Native.Nat.{max}
use property_search.Prelude.{
  ℕ, Text, ◌≡◌, Bool, true, false, not, ◌&&◌, ◌||◌, ◌+◌, ◌*◌, List, [], ◌∷◌, ◌++◌, Option, none,
  some, ltb, ◌==◌, if◌then◌else◌, any, find?, update, count, text_eq,
}
use property_search.Store.{
  rated, DeliveryRow, RatingRow, BotState, Db, Action, no_delivery, raise, pure, query, exec,
  exec_result, transaction, now, Result, ok, ◌>>=◌, ◌>>◌,
}
use property_search.Repo.Searches.{second}
use property_search.Repo.Listings.{is_delivery, delivered}

abbrev pub is_rating : ℕ → ℕ → RatingRow → Bool
is_rating user item r = r.user_id == user && r.listing_id == item

unfoldable pub upsert_rating : ℕ → ℕ → ℕ → ℕ → Db → Db
upsert_rating user item label at d =
    if any (is_rating user item) d.ratings
    then record d {
      ratings =
          update (is_rating user item) (λ r. record r { label = label; created_at = at }) d.ratings;
    }
    else record d {
      ratings =
          d.ratings
          ++ record { user_id = user; listing_id = item; label = label; created_at = at } ∷ [];
    }

unfoldable pub mark_rated : ℕ → ℕ → Db → Db
mark_rated user item d = record d {
  deliveries = update (is_delivery user item) (λ r. record r { status = rated }) d.deliveries;
}

unfoldable pub rate_in_transaction : ℕ → ℕ → ℕ → Action (Unit {0})
unfolding upsert_rating mark_rated
rate_in_transaction user item label = do
  known ← query (delivered user item)
  if not known
      then raise no_delivery
      else do at ← now; exec (upsert_rating user item label at); exec (mark_rated user item)

-- `Repo.RecordRating`
unfoldable pub record_rating : ℕ → ℕ → ℕ → Action (Unit {0})
unfolding rate_in_transaction
record_rating user item label = transaction (rate_in_transaction user item label)

abbrev labelled_as : ℕ → ℕ → RatingRow → Bool
labelled_as user label r = r.user_id == user && r.label == label

-- `Repo.RatingCounts`
unfoldable pub rating_counts : ℕ → Action (ℕ × ℕ)
rating_counts user =
    query (λ d. (count (labelled_as user 1) d.ratings, count (labelled_as user 0) d.ratings))

-- `RatingState`; the zero time, at which a row with no `sent_at` reads, is the origin.
pub record RatingState : Type 0 where
  pub is_delivered : Bool
  pub sent_at : ℕ
  pub has_rating : Bool
  pub label : ℕ

abbrev pub or_zero : Option ℕ → ℕ
or_zero none = 0
or_zero (some n) = n

abbrev rating_of : ℕ → ℕ → Db → Option RatingRow
rating_of user item d = find? (is_rating user item) d.ratings

abbrev pub select_rating_state : ℕ → ℕ → Db → RatingState
select_rating_state user item d = elim (find? (is_delivery user item) d.deliveries) [
  | none ↦ record { is_delivered = false; sent_at = 0; has_rating = false; label = 0 }
  | some r ↦ elim (rating_of user item d) [
    | none ↦ record {
      is_delivered = true;
      sent_at = or_zero r.sent_at;
      has_rating = false;
      label = 0;
    }
    | some x ↦ record {
      is_delivered = true;
      sent_at = or_zero r.sent_at;
      has_rating = true;
      label = x.label;
    }
  ]
]

-- `Repo.RatingState`
unfoldable pub rating_state : ℕ → ℕ → Action RatingState
rating_state user item = query (select_rating_state user item)

-- `DeliveryLeaseDuration`
abbrev pub delivery_lease_duration : ℕ
delivery_lease_duration = 90 * second

abbrev held_by : Text → Option Text → Bool
held_by holder none = true
held_by holder (some h) = text_eq h holder

abbrev expired : ℕ → Option ℕ → Bool
expired at none = true
expired at (some t) = ltb t at

unfoldable pub take_lease : Text → ℕ → Db → Result Bool × Db
take_lease holder at d =
    if held_by holder d.bot_state.poll_lease_holder || expired at d.bot_state.poll_lease_expires_at
    then (
      ok true,
      record d {
        bot_state = record (d.bot_state) {
          poll_lease_holder = some holder;
          poll_lease_expires_at = some (at + delivery_lease_duration);
        };
      },
    )
    else (ok false, d)

-- `Repo.AcquirePollLease`
unfoldable pub acquire_poll_lease : Text → Action Bool
unfolding take_lease
acquire_poll_lease holder = do at ← now; exec_result (take_lease holder at)

abbrev holds : Text → Option Text → Bool
holds holder none = false
holds holder (some h) = text_eq h holder

unfoldable pub drop_lease : Text → Db → Db
drop_lease holder d =
    if holds holder d.bot_state.poll_lease_holder
    then record d {
      bot_state = record (d.bot_state) { poll_lease_holder = none; poll_lease_expires_at = none };
    }
    else d

-- `Repo.ReleasePollLease`
unfoldable pub release_poll_lease : Text → Action (Unit {0})
unfolding drop_lease
release_poll_lease holder = exec (drop_lease holder)

-- `Repo.LastUpdateID`
unfoldable pub last_update_id : Action ℕ
last_update_id = query (λ d. d.bot_state.last_update_id)

abbrev pub raise_offset : ℕ → Db → Db
raise_offset update d = record d {
  bot_state = record (d.bot_state) { last_update_id = max d.bot_state.last_update_id update };
}

-- `Repo.AdvanceUpdateID`
unfoldable pub advance_update_id : ℕ → Action (Unit {0})
advance_update_id update = exec (raise_offset update)

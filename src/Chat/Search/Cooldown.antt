-- ===== src/Chat/Search/Cooldown.antt =====
-- The hour between two runs that a user asks for.
use property_search.Prelude.{
  ℕ, ◌+◌, ◌-◌, ◌*◌, ◌≤◌, ◌<◌, ◌≡◌, refl, true, false, arith, if◌then◌else◌, any, update, List, [],
  ◌∷◌, ◌++◌, some, ◌==◌, ==_refl, ==_iff, ltb,
}
use property_search.Store.{LastSearch}
use property_search.Chat.Search.{
  search_cooldown, is_last, last_search_of, store_last, granted, wait, claim_search_run,
  minutes_ceil, minute,
}

last_search_of-store_last_go :
    (user at : ℕ) (m : List LastSearch)
    → any (is_last user) m ≡ true
    → last_search_of user (update (is_last user) (λ r. record r { at = at }) m) ≡ some at
last_search_of-store_last_go user at [] h = cc
last_search_of-store_last_go user at (x ∷ m) h =
    ground (arith, last_search_of-store_last_go user at m)

last_search_of-snoc :
    (user at : ℕ) (m : List LastSearch)
    → any (is_last user) m ≡ false
    → last_search_of user (m ++ record { user_id = user; at = at } ∷ []) ≡ some at
last_search_of-snoc user at [] h = ground (arith, ==_refl user)
last_search_of-snoc user at (x ∷ m) h = ground (arith, last_search_of-snoc user at m)

last_search_of-store_last :
    (user at : ℕ) (m : List LastSearch) → last_search_of user (store_last user at m) ≡ some at
unfolding store_last
last_search_of-store_last user at m =
    ground (arith, last_search_of-store_last_go user at m, last_search_of-snoc user at m)

update-other :
    (user other at : ℕ) (m : List LastSearch)
    → (other == user) ≡ false
    → last_search_of other (update (is_last user) (λ r. record r { at = at }) m)
      ≡ last_search_of other m
update-other user other at [] ne = refl
update-other user other at (x ∷ m) ne = ground (
  arith,
  update-other user other at m,
  ==_iff other user,
  ==_iff x.user_id user,
  ==_iff x.user_id other,
)

last_search_of-store_last_other :
    (user other at : ℕ) (m : List LastSearch)
    → (other == user) ≡ false
    → last_search_of other (store_last user at m) ≡ last_search_of other m
unfolding store_last
last_search_of-store_last_other user other at m ne =
    ground (arith, update-other user other at m, snoc-other m)
  where
    snoc-other :
        (m : List LastSearch)
        → last_search_of other (m ++ record { user_id = user; at = at } ∷ [])
          ≡ last_search_of other m
    snoc-other [] = ground (arith, ==_iff other user, ==_iff user other)
    snoc-other (x ∷ m) = ground (arith, snoc-other m)

claim_search_run-granted :
    (user at : ℕ) (m : List LastSearch)
    → (claim_search_run user at m).0 ≡ granted
    → (claim_search_run user at m).1 ≡ store_last user at m
unfolding claim_search_run
claim_search_run-granted user at m h = ground arith

-- A claim, when the last run is known.
claim_search_run-after :
    (user last at : ℕ) (m : List LastSearch)
    → last ≤ at
    → last_search_of user m ≡ some last
    → ((claim_search_run user at m).0
        ≡ (if ltb at (last + search_cooldown) then wait (last + search_cooldown - at) else granted))
      × (last_search_of user (claim_search_run user at m).1
          ≡ (if ltb at (last + search_cooldown) then some last else some at))
unfolding claim_search_run
claim_search_run-after user last at m le h =
    (ground arith, ground (arith, last_search_of-store_last user at m))

-- After a run that was granted, the same user is granted another exactly from an hour later on; before
-- that the answer is how long is left of the hour, and asking again does not lengthen it. No other
-- user's hour is touched.
pub claim_search_run-hourly :
    (user other at later : ℕ) (m : List LastSearch)
    → at ≤ later
    → (other == user) ≡ false
    → (claim_search_run user at m).0 ≡ granted
    → let m' = (claim_search_run user at m).1 in
      ((claim_search_run user later m').0 ≡ (
        if ltb later (at + search_cooldown) then wait (at + search_cooldown - later) else granted))
      × (last_search_of user m' ≡ some at)
      × (last_search_of user (claim_search_run user later m').1
          ≡ (if ltb later (at + search_cooldown) then some at else some later))
      × (last_search_of other m' ≡ last_search_of other m)
unfolding claim_search_run
claim_search_run-hourly user other at later m le ne h = rw (claim_search_run-granted user at m h) (
  (claim_search_run-after user at later _ le (last_search_of-store_last user at m)).0,
  last_search_of-store_last user at m,
  (claim_search_run-after user at later _ le (last_search_of-store_last user at m)).1,
  last_search_of-store_last_other user other at m ne,
)

-- The minutes of a wait are rounded up: at least the wait, and less than a minute more.
pub minutes_ceil-bounds :
    (d : ℕ) → (d ≤ minutes_ceil d * minute) × (minutes_ceil d * minute < d + minute)
unfolding minutes_ceil
minutes_ceil-bounds d = ground arith

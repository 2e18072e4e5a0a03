-- ===== src/Chat/Ratings/Guards.antt =====
-- The guards of `handleCallback` on a listing that has a rating.
use property_search.Prelude.{ℕ, ◌≡◌, true, not, ◌||◌, arith, some, any, find?-none, pos}
use property_search.Store.{World, Db}
use property_search.Repo.Ratings.{is_rating, rating_state, select_rating_state}
use property_search.Chat.Updates.{CallbackQuery}
use property_search.Chat.Ratings.{callback_listing, handle_callback}

select_rating_state-rated :
    (user item : ℕ) (d : Db)
    → any (is_rating user item) d.ratings ≡ true
    → not (select_rating_state user item d).is_delivered
        || (select_rating_state user item d).has_rating
      ≡ true
select_rating_state-rated user item d h = ground (arith, find?-none (is_rating user item) d.ratings)

module _ (like : ℕ → ℕ → ℕ → World → World) where
  -- A rating stands: a press of a user on a button of a listing that the user has rated already, with
  -- whatever label, leaves the database as it is, even if the card is no longer there or the look-up
  -- fails.
  pub handle_callback-keeps_rating :
      (cq : CallbackQuery) (user item : ℕ) (w : World)
      → cq.sender ≡ some user
      → callback_listing cq.payload ≡ some (pos item)
      → any (is_rating user item) w.db.ratings ≡ true
      → (handle_callback like cq w).1.db ≡ w.db
  unfolding handle_callback rating_state
  handle_callback-keeps_rating cq user item w by on rated =
      ground (arith, select_rating_state-rated user item w.db)

-- ===== src/Repo/Users/Deleted.antt =====
-- What /borrardatos leaves of a user.
use property_search.Prelude.{
  ℕ, ◌≡◌, refl, Bool, true, false, not, arith, any, filter, List, [], ◌∷◌, ◌==◌, ==_iff, Bool-cases,
  inl, inr,
}
use property_search.Store.{
  UserRow, SearchRow, SourceRow, DeliveryRow, RatingRow, WeightsRow, DigestRow, Db, World, ok,
}
use property_search.Repo.Users.{delete_user, owns_search}

any-filter-not {ℓ} :
    {A : Type ℓ} (p : A → Bool) (xs : List A) → any p (filter (λ x. not (p x)) xs) ≡ false
any-filter-not p [] = refl
any-filter-not p (x ∷ xs) = ground (arith, any-filter-not p xs)

-- The rows of one user in the tables.
pub record Forgotten (user : ℕ) (before after : Db) : Type 0 where
  pub users : any (λ (r : UserRow). r.user_id == user) after.users ≡ false
  pub searches : any (λ (r : SearchRow). r.user_id == user) after.search_urls ≡ false
  pub sources :
      any (λ (r : SourceRow). owns_search user r.search_url_id before) after.listing_sources ≡ false
  pub deliveries : any (λ (r : DeliveryRow). r.user_id == user) after.deliveries ≡ false
  pub ratings : any (λ (r : RatingRow). r.user_id == user) after.ratings ≡ false
  pub weights : any (λ (r : WeightsRow). r.user_id == user) after.model_weights ≡ false
  pub digests : any (λ (r : DigestRow). r.user_id == user) after.digests ≡ false
  pub listings : after.listings ≡ before.listings
  pub other_sources :
      filter
        (λ (r : SourceRow). not (owns_search user r.search_url_id before))
        after.listing_sources
      ≡ filter
          (λ (r : SourceRow). not (owns_search user r.search_url_id before))
          before.listing_sources
  pub contacts : after.listing_contacts ≡ before.listing_contacts

filter-filter_other {ℓ} :
    {A : Type ℓ} (p q : A → Bool) (xs : List A)
    → ((x : A) → p x ≡ true → q x ≡ false)
    → filter p (filter (λ x. not (q x)) xs) ≡ filter p xs
filter-filter_other p q [] h = refl
filter-filter_other p q (x ∷ xs) h = ground (arith, filter-filter_other p q xs h, h x)

-- The rows of one user, and what belongs to no user, unchanged and in the same order.
pub record Kept (user : ℕ) (before after : Db) : Type 0 where
  pub users :
      filter (λ (r : UserRow). r.user_id == user) after.users
      ≡ filter (λ (r : UserRow). r.user_id == user) before.users
  pub searches :
      filter (λ (r : SearchRow). r.user_id == user) after.search_urls
      ≡ filter (λ (r : SearchRow). r.user_id == user) before.search_urls
  pub deliveries :
      filter (λ (r : DeliveryRow). r.user_id == user) after.deliveries
      ≡ filter (λ (r : DeliveryRow). r.user_id == user) before.deliveries
  pub ratings :
      filter (λ (r : RatingRow). r.user_id == user) after.ratings
      ≡ filter (λ (r : RatingRow). r.user_id == user) before.ratings
  pub weights :
      filter (λ (r : WeightsRow). r.user_id == user) after.model_weights
      ≡ filter (λ (r : WeightsRow). r.user_id == user) before.model_weights
  pub digests :
      filter (λ (r : DigestRow). r.user_id == user) after.digests
      ≡ filter (λ (r : DigestRow). r.user_id == user) before.digests
  pub bot_state : after.bot_state ≡ before.bot_state
  pub settings : after.settings ≡ before.settings

-- Deleting a user that succeeds leaves no row of the user in any table, nor the links of the user's
-- searches. The listings and their contacts stay, and so do the links of all searches but the user's,
-- every row of every other user, the poller's state and the settings.
pub delete_user-forgets :
    (user other : ℕ) (w : World)
    → (delete_user user w).0 ≡ ok tt
    → (other == user) ≡ false
    → let d = (delete_user user w).1.db in Forgotten user w.db d × Kept other w.db d
unfolding delete_user
delete_user-forgets user other w h ne = elim (Bool-cases (w.env.db_fails w.step)) [
  | inl e ↦ ground arith
  | inr e ↦ rw e (
    record {
      users = any-filter-not _ w.db.users;
      searches = any-filter-not _ w.db.search_urls;
      sources = any-filter-not _ w.db.listing_sources;
      deliveries = any-filter-not _ w.db.deliveries;
      ratings = any-filter-not _ w.db.ratings;
      weights = any-filter-not _ w.db.model_weights;
      digests = any-filter-not _ w.db.digests;
      listings = refl;
      other_sources =
          filter-filter_other _ _ w.db.listing_sources
            (λ r. others (owns_search user r.search_url_id w.db));
      contacts = refl;
    },
    record {
      users = filter-filter_other _ _ w.db.users (λ r. differs r.user_id);
      searches = filter-filter_other _ _ w.db.search_urls (λ r. differs r.user_id);
      deliveries = filter-filter_other _ _ w.db.deliveries (λ r. differs r.user_id);
      ratings = filter-filter_other _ _ w.db.ratings (λ r. differs r.user_id);
      weights = filter-filter_other _ _ w.db.model_weights (λ r. differs r.user_id);
      digests = filter-filter_other _ _ w.db.digests (λ r. differs r.user_id);
      bot_state = refl;
      settings = refl;
    },
  )
]
  where
    differs : (id : ℕ) → (id == other) ≡ true → (id == user) ≡ false
    differs id q = ground (arith, ==_iff id other, ==_iff id user)

    others : (b : Bool) → not b ≡ true → b ≡ false
    others b q = ground arith

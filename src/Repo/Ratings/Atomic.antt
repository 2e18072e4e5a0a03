-- ===== src/Repo/Ratings/Atomic.antt =====
-- `RecordRating`: the rating and the delivery's status.
use mathlib.Core.Path.{subst}
use property_search.Prelude.{
  ℕ, suc, ◌+◌, ◌≤◌, ◌≡◌, refl, Bool, true, false, not, ◌&&◌, ◌⊎◌, inl, inr, arith, any, update,
  List, [], ◌∷◌, Bool-cases, any-snoc, ◌==◌, ==_refl,
}
use property_search.Store.{
  rated, DeliveryStatus, DeliveryRow, RatingRow, Db, World, ok, err, Error, Result, Result,
  transaction-err, no_delivery, driver, Result-cases,
}
use property_search.Repo.Listings.{is_delivery, delivered}
use property_search.Repo.Ratings.{
  is_rating, upsert_rating, mark_rated, rate_in_transaction, record_rating,
}

abbrev is_rated : DeliveryStatus → Bool
is_rated rated = true
is_rated _ = false

-- The rating is there with its label, and every delivery of the listing to the user reads as rated.
pub record IsRated (user item label : ℕ) (d : Db) : Type 0 where
  pub has_label : any (λ r. is_rating user item r && r.label == label) d.ratings ≡ true
  pub none_unrated :
      any (λ r. is_delivery user item r && not (is_rated r.status)) d.deliveries ≡ false

any-update_label :
    (user item label at : ℕ) (xs : List RatingRow)
    → any (is_rating user item) xs ≡ true
    → any
        (λ r. is_rating user item r && r.label == label)
        (update (is_rating user item) (λ r. record r { label = label; created_at = at }) xs)
      ≡ true
any-update_label user item label at [] h = cc
any-update_label user item label at (x ∷ xs) h =
    ground (arith, ==_refl label, any-update_label user item label at xs)

any-update_unrated :
    (user item : ℕ) (xs : List DeliveryRow)
    → any
        (λ r. is_delivery user item r && not (is_rated r.status))
        (update (is_delivery user item) (λ r. record r { status = rated }) xs)
      ≡ false
any-update_unrated user item [] = refl
any-update_unrated user item (x ∷ xs) = ground (arith, any-update_unrated user item xs)

rating-IsRated :
    (user item label at : ℕ) (d : Db)
    → IsRated user item label (mark_rated user item (upsert_rating user item label at d))
unfolding mark_rated upsert_rating
rating-IsRated user item label at d = elim (Bool-cases (any (is_rating user item) d.ratings)) [
  | inl old ↦
      rw (old, mark_rated, upsert_rating)
        (record {
          has_label = any-update_label user item label at d.ratings old;
          none_unrated = any-update_unrated user item d.deliveries;
        })
  | inr new ↦
      rw (new, mark_rated, upsert_rating)
        (record {
          has_label = rw any-snoc (ground (arith, ==_refl user, ==_refl item, ==_refl label));
          none_unrated = any-update_unrated user item d.deliveries;
        })
]

module _ (user item label : ℕ) (w : World) where
  abbrev rated_db : Db
  rated_db =
      mark_rated user item (upsert_rating user item label (w.env.clock (suc (suc w.step))) w.db)

  record_rating-ok :
      (a : Unit {0})
      → (record_rating user item label w).0 ≡ ok a
      → (delivered user item w.db ≡ true) × ((record_rating user item label w).1.db ≡ rated_db)
  unfolding record_rating
  record_rating-ok a h = ground arith

  -- Why a rating fails: the listing was not delivered, or one of the transaction's statements failed,
  -- from its begin to its commit.
  pub data Cause : Error → Type 0 where
    undelivered : delivered user item w.db ≡ false → Cause no_delivery
    lost : (n : ℕ) → w.step ≤ n → n ≤ w.step + 4 → w.env.db_fails n ≡ true → Cause driver

  record_rating-cause : (e : Error) → (record_rating user item label w).0 ≡ err e → Cause e
  unfolding record_rating
  record_rating-cause e h = elim (Bool-cases (w.env.db_fails w.step)) [
    | inl f0 ↦ because driver (lost w.step (omega arith) (omega arith) f0) (rw f0 at h)
    | inr t0 ↦ elim (Bool-cases (w.env.db_fails (suc w.step))) [
      | inl f1 ↦
          because driver (lost (suc w.step) (omega arith) (omega arith) f1) (rw (t0, f1) at h)
      | inr t1 ↦ elim (Bool-cases (delivered user item w.db)) [
        | inr none ↦ because no_delivery (undelivered none) (rw (t0, t1, none) at h)
        | inl there ↦ elim (Bool-cases (w.env.db_fails (suc (suc w.step)))) [
          | inl f2 ↦
              because driver (lost (suc (suc w.step)) (omega arith) (omega arith) f2)
                (rw (t0, t1, there, f2) at h)
          | inr t2 ↦ elim (Bool-cases (w.env.db_fails (suc (suc (suc w.step))))) [
            | inl f3 ↦
                because driver (lost (suc (suc (suc w.step))) (omega arith) (omega arith) f3)
                  (rw (t0, t1, there, t2, f3) at h)
            | inr t3 ↦ elim (Bool-cases (w.env.db_fails (suc (suc (suc (suc w.step)))))) [
              | inl f4 ↦
                  because driver
                    (lost (suc (suc (suc (suc w.step)))) (omega arith) (omega arith) f4)
                    (rw (t0, t1, there, t2, t3, f4) at h)
              | inr t4 ↦ absurd (went (rw (t0, t1, there, t2, t3, t4) at h))
            ]
          ]
        ]
      ]
    ]
  ]
    where
      because : (e' : Error) → Cause e' → ◌≡◌ {A = Result (Unit {0})} (err e') (err e) → Cause e
      because e' c q = subst Cause (cc) c

      went : ◌≡◌ {A = Result (Unit {0})} (ok tt) (err e) → ⊥
      went q = absurd (cc q)

  -- A rating either succeeds, being of a listing that was delivered to the user, and is then there with
  -- its label, the delivery being marked as rated; or it fails and leaves the database as it was. It
  -- fails only with no delivery where the listing was not delivered, or where the begin, the commit or
  -- a statement between them failed.
  pub record_rating-atomic :
      (((record_rating user item label w).0 ≡ ok tt)
        × (delivered user item w.db ≡ true)
        × IsRated user item label (record_rating user item label w).1.db)
      ⊎ (((e : Error) × ((record_rating user item label w).0 ≡ err e) × Cause e)
          × ((record_rating user item label w).1.db ≡ w.db))
  unfolding record_rating
  record_rating-atomic = elim (Result-cases (record_rating user item label w).0) [
    | inl (a, e) ↦
        let (known, done) = record_rating-ok a e in
        inl (e, known, rw done (rating-IsRated user item label _ w.db))
    | inr (x, e) ↦ inr (
      (x, e, record_rating-cause x e),
      transaction-err (rate_in_transaction user item label) w x e,
    )
  ]

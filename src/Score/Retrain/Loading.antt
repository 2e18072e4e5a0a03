-- ===== src/Score/Retrain/Loading.antt =====
-- `Load` on a database that holds the rows of a version.
use property_search.Prelude.{
  ℕ, ◌≡◌, refl, ap, ◌∙◌, Text, Bool, true, false, List, [], ◌∷◌, map, any, find?, sort_stable,
  arith, if◌then◌else◌, text_eq, some, none, ◌==◌, ==_iff, Bool-cases, inl, inr,
}
use property_search.Store.{UserRow, Db, WeightsRow, Action, query, pure, ◌>>=◌}
use property_search.Store.Ensures.{
  Ensures, Ensures-given, Ensures-pure, Ensures-query, Ensures-query_at, Ensures-or_no_row,
  Ensures-bind, Ensures-weaken,
}
use property_search.Repo.Users.{is_user}
use property_search.Repo.Weights.{
  WeightRow, select_version, model_version, weight_row, active_weights, select_weights,
}
use property_search.Repo.Weights.Replaced.{stored}
use property_search.Score.Model.{Weights}
use property_search.Score.Retrain.{load_rows, load}

pub version-there :
    (user v : ℕ) (d : Db) → select_version user d ≡ some v → any (is_user user) d.users ≡ true
version-there user v d h = elim (Bool-cases (any (is_user user) d.users)) [
  | inl e ↦ e
  | inr e ↦ absurd (clash e)
]
  where
    nobody : (us : List UserRow) → any (is_user user) us ≡ false → find? (is_user user) us ≡ none
    nobody [] e = refl
    nobody (x ∷ us) e = ground (arith, nobody us)

    clash : any (is_user user) d.users ≡ false → ⊥
    clash e = ground (arith, nobody d.users e)

-- The version of a user's model that is active.
pub version-Ensures :
    (user v : ℕ) (P : Db → Type 0)
    → ((d : Db) → P d → select_version user d ≡ some v)
    → Ensures P (λ n d. P d × (n ≡ v)) (model_version user)
unfolding model_version
version-Ensures user v P known = Ensures-bind _ _ (Ensures-query (select_version user)) (λ x.
    Ensures-weaken _ (λ d h. h) (λ n d h. (h.0.0, ground (arith, known d h.0.0, h.0.1, h.1)))
      (Ensures-or_no_row x))

module _ (user n : ℕ) (rows : List WeightsRow) where
  abbrev IsActive : Db → Type 0
  IsActive d = (select_version user d ≡ some n) × (stored user n d ≡ rows)

  -- The order of `ActiveWeights`, by the database's collation.
  abbrev collated : (Text → Text → Bool) → WeightsRow → WeightsRow → Bool
  collated c a b = if text_eq a.feature b.feature then c a.value b.value else c a.feature b.feature

  abbrev AreRead : ℕ × List WeightRow → Db → Type 0
  AreRead x d =
      (x.0 ≡ n)
      × ((before : WeightsRow → WeightsRow → Bool) × (x.1
            ≡ map weight_row (sort_stable before rows)))

  read_rows : ℕ → Action (ℕ × List WeightRow)
  read_rows version w =
      (do rs ← query (select_weights w.env.collate user version); pure (version, rs)) w

  read_rows-AreRead : (version : ℕ) → version ≡ n → Ensures IsActive AreRead (read_rows version)
  unfolding read_rows select_weights
  read_rows-AreRead version e =
      Ensures-bind (λ w. query (select_weights w.env.collate user version) w) _
        (Ensures-query_at (λ c. select_weights c user version))
        (λ rs.
          Ensures-weaken (pure (version, rs)) (λ d h. h)
            (λ x d h. (
              ap (λ (y : ℕ × List WeightRow). y.0) h.1 ∙ e,
              (
                collated h.0.1.0,
                ap (λ (y : ℕ × List WeightRow). y.1) h.1
                    ∙ h.0.1.1
                    ∙ ap (λ k. map weight_row (sort_stable (collated h.0.1.0) (stored user k d))) e
                    ∙ ap (λ r. map weight_row (sort_stable (collated h.0.1.0) r)) h.0.0.1,
              ),
            ))
            (Ensures-pure (version, rs)))

  active_weights-AreRead : (n == 0) ≡ false → Ensures IsActive AreRead (active_weights user)
  unfolding active_weights read_rows
  active_weights-AreRead positive =
      Ensures-bind (model_version user) _ (version-Ensures user n IsActive (λ d h. h.0)) (λ version.
        Ensures-given _ (λ d h. Ensures-weaken _ (λ d' h'. h'.0) (λ x d' q. q) (reads version h.1)))
    where
      reads :
          (version : ℕ)
          → version ≡ n
          → Ensures IsActive AreRead (if version == 0 then pure (0, []) else read_rows version)
      reads version e = elim (Bool-cases (version == 0)) [
        | inl zero' ↦ absurd (ground (arith, ==_iff version 0))
        | inr more ↦ rw more (read_rows-AreRead version e)
      ]

  -- What `Load` makes of the rows of the active version.
  pub load-Ensures :
      (n == 0) ≡ false
      → Ensures IsActive
          (λ (m : Weights) d.
            (m.version ≡ n)
            × ((before : WeightsRow → WeightsRow → Bool) × (m.buckets
                  ≡ load_rows (map weight_row (sort_stable before rows)) [])))
          (load user)
  unfolding load
  load-Ensures positive =
      Ensures-bind (active_weights user) _ (active_weights-AreRead positive) (λ x.
        Ensures-weaken (pure (record { version = x.0; buckets = load_rows x.1 [] })) (λ d h. h)
          (λ m d h. (
            ap (λ (y : Weights). y.version) h.1 ∙ h.0.0,
            (h.0.1.0, ap (λ (y : Weights). y.buckets) h.1 ∙ ap (λ r. load_rows r []) h.0.1.1),
          ))
          (Ensures-pure (record { version = x.0; buckets = load_rows x.1 [] })))

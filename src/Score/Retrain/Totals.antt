-- ===== src/Score/Retrain/Totals.antt =====
-- internal/score/retrain.go: what the rows of a model say of a feature and value, loaded in any order.
use property_search.Prelude.{
  ℕ, ◌≡◌, ◌≤◌, refl, sym, ◌∙◌, Text, Bool, List, [], ◌∷◌, map, any, count, count-map,
  count-sort_stable, sum_by, sum_by-map, sum_by-sort_stable, sort_stable, count-any-false, arith,
  if◌then◌else◌, text_eq_iff, ◌==◌, Bool-cases, inl, inr,
}
use property_search.Store.{WeightsRow}
use property_search.Repo.Weights.{WeightRow, new_weight, weight_row}
use property_search.Repo.Weights.Replaced.{is_row, IsDistinct}
use property_search.Score.Model.{Bucket, Entry, is_bucket, set_bucket, lookup_bucket}
use property_search.Score.Model.Evidence.{evidence, lookup_bucket-set_bucket, lookup_bucket-other}
use property_search.Score.Retrain.{rows_of, load_rows}
use property_search.Score.Retrain.Reloaded
use property_search.Score.Retrain.Reloaded.{load_rows-rows_of, train-IsDistinct}

module _ (name value : Text) where
  -- What the rows for a feature and value say in all.
  abbrev ups_of : WeightRow → ℕ
  ups_of r = if is_row name value r then r.ups else 0

  abbrev downs_of : WeightRow → ℕ
  downs_of r = if is_row name value r then r.downs else 0

  abbrev pub totals : List WeightRow → Bucket
  totals rows = record { ups = sum_by ups_of rows; downs = sum_by downs_of rows }

  totals-none :
      (rows : List WeightRow)
      → count (is_row name value) rows ≡ 0
      → totals rows ≡ record { ups = 0; downs = 0 }
  totals-none [] h = refl
  totals-none (r ∷ rows) h = ground (arith, totals-none rows)

  -- Loading rows of which one at most is for the feature and value.
  load_rows-one :
      (rows : List WeightRow) (es : List Entry)
      → count (is_row name value) rows ≤ 1
      → evidence name value (load_rows rows es)
        ≡ (if count (is_row name value) rows == 0 then evidence name value es else totals rows)
  unfolding load_rows
  load_rows-one [] es h = refl
  load_rows-one (r ∷ rows) es h =
      let b : Bucket = record { ups = r.ups; downs = r.downs } in
      let ih = load_rows-one rows (set_bucket r.feature r.value b es) in
      elim (Bool-cases (is_row name value r)) [
        | inl e ↦ ground (
          arith,
          ih,
          totals-none rows,
          text_eq_iff r.feature name,
          text_eq_iff r.value value,
          lookup_bucket-set_bucket r.feature r.value b es,
        )
        | inr e ↦ ground (arith, ih, lookup_bucket-other name value r.feature r.value b es e)
      ]

  -- Loading reads back what the rows say in all.
  pub load_rows-totals :
      (rows : List WeightRow)
      → count (is_row name value) rows ≤ 1
      → evidence name value (load_rows rows []) ≡ totals rows
  unfolding lookup_bucket
  load_rows-totals rows h = elim (Bool-cases (count (is_row name value) rows == 0)) [
    | inl e ↦ load_rows-one rows [] h ∙ rw e (sym (totals-none rows (ground arith)))
    | inr e ↦ load_rows-one rows [] h ∙ rw e refl
  ]

module _ (user version : ℕ) (name value : Text) where
  count-new :
      (xs : List WeightRow)
      → count (is_row name value) (map weight_row (map (new_weight user version) xs))
        ≡ count (is_row name value) xs
  count-new [] = refl
  count-new (x ∷ xs) = omega (arith, count-new xs)

  sum-new :
      (g : WeightRow → ℕ) (xs : List WeightRow)
      → sum_by g (map weight_row (map (new_weight user version) xs)) ≡ sum_by g xs
  sum-new g [] = refl
  sum-new g (x ∷ xs) = omega (arith, sum-new g xs)

  sorted-sum :
      (before : WeightsRow → WeightsRow → Bool) (g : WeightRow → ℕ) (xs : List WeightRow)
      → sum_by g (map weight_row (sort_stable before (map (new_weight user version) xs)))
        ≡ sum_by g xs
  sorted-sum before g xs =
      sum_by-map g weight_row _
      ∙ sum_by-sort_stable before _ _
      ∙ sym (sum_by-map g weight_row _)
      ∙ sum-new g xs

  -- The order in which the database answers does not matter.
  pub sorted-totals :
      (before : WeightsRow → WeightsRow → Bool) (xs : List WeightRow)
      → totals name value (map weight_row (sort_stable before (map (new_weight user version) xs)))
        ≡ totals name value xs
  sorted-totals before xs =
      ground (
        arith,
        sorted-sum before (ups_of name value) xs,
        sorted-sum before (downs_of name value) xs,
      )

  pub sorted-count :
      (before : WeightsRow → WeightsRow → Bool) (xs : List WeightRow)
      → count
          (is_row name value)
          (map weight_row (sort_stable before (map (new_weight user version) xs)))
        ≡ count (is_row name value) xs
  sorted-count before xs =
      count-map (is_row name value) weight_row _
      ∙ count-sort_stable before _ _
      ∙ sym (count-map (is_row name value) weight_row _)
      ∙ count-new xs

pub IsDistinct-count :
    (name value : Text) (xs : List WeightRow) → IsDistinct xs → count (is_row name value) xs ≤ 1
IsDistinct-count name value [] h = omega arith
IsDistinct-count name value (x ∷ xs) (new, h) = ground (
  arith,
  IsDistinct-count name value xs h,
  text_eq_iff x.feature name,
  text_eq_iff x.value value,
  count-any-false (is_row name value) xs,
)

any-rows_of :
    (name value : Text) (es : List Entry)
    → any (is_row name value) (rows_of es) ≡ any (is_bucket name value) es
unfolding rows_of
any-rows_of name value [] = refl
any-rows_of name value (e ∷ es) = ground (arith, any-rows_of name value es)

pub rows_of-IsDistinct : (es : List Entry) → Reloaded.IsDistinct es → IsDistinct (rows_of es)
unfolding rows_of
rows_of-IsDistinct [] h = tt
rows_of-IsDistinct (e ∷ es) (new, h) =
    (any-rows_of e.feature e.value es ∙ new, rows_of-IsDistinct es h)

-- ===== src/Validate/Batch.antt =====
-- The searches of a batch against the rows that they were read from.
use property_search.Prelude.{
  text_eq, text_eq_refl, text_eq_iff, ℕ, ◌≤◌, Bool, ◌&&◌, List, [], ◌∷◌, map, filter, count, All,
  All-take, All-sort_stable, arith, ◌==◌, ==_refl, ==_iff, Bool-cases, inl, inr,
}
use property_search.Store.{SearchRow, Db}
use property_search.Repo.Searches.{
  SearchUrl, search_url, has_id, is_unsettled, is_due, select_pending,
}
use property_search.Validate.Judged.{Fits}

-- Of rows with distinct ids, those that are to be checked fit their entries in the batch.
module _ where
  abbrev fits_row : SearchRow → SearchRow → Bool
  fits_row r x =
      is_unsettled x.validation_status && (x.attempts == r.attempts && text_eq x.url r.url)

  counts_mono :
      (ys : List SearchRow) (x : SearchRow) (zs : List SearchRow)
      → All (λ (r : SearchRow). 1 ≤ count (λ y. y.id == r.id && fits_row r y) zs) ys
      → All (λ (r : SearchRow). 1 ≤ count (λ y. y.id == r.id && fits_row r y) (x ∷ zs)) ys
  counts_mono [] x zs h = tt
  counts_mono (y ∷ ys) x zs (h, hs) = (omega arith, counts_mono ys x zs hs)

  counts-filter :
      (at : ℕ) (ys : List SearchRow)
      → All
          (λ (r : SearchRow). 1 ≤ count (λ y. y.id == r.id && fits_row r y) ys)
          (filter
            (λ (r : SearchRow). is_unsettled r.validation_status && is_due at r.next_check_at)
            ys)
  counts-filter at [] = tt
  counts-filter at (y ∷ ys) =
      elim (Bool-cases (is_unsettled y.validation_status && is_due at y.next_check_at)) [
        | inl e ↦ rw e (
          ground (arith, ==_refl y.id, ==_refl y.attempts, text_eq_refl y.url),
          counts_mono _ y ys (counts-filter at ys),
        )
        | inr e ↦ rw e (counts_mono _ y ys (counts-filter at ys))
      ]

  counts-fits-le :
      (r : SearchRow) (ys : List SearchRow)
      → count (λ y. y.id == r.id && fits_row r y) ys ≤ count (has_id r.id) ys
  counts-fits-le r [] = omega arith
  counts-fits-le r (y ∷ ys) = ground (arith, counts-fits-le r ys)

  only-Fits :
      (r : SearchRow) (ys : List SearchRow)
      → count (has_id r.id) ys ≤ count (λ y. y.id == r.id && fits_row r y) ys
      → Fits ys (search_url r)
  only-Fits r [] h = tt
  only-Fits r (y ∷ ys) h = (
    λ e. (
      ground (arith, counts-fits-le r ys),
      ground (arith, counts-fits-le r ys, ==_iff y.attempts r.attempts),
      ground (arith, counts-fits-le r ys, text_eq_iff y.url r.url),
    ),
    only-Fits r ys (ground (arith, counts-fits-le r ys)),
  )

  All-Fits :
      (ys rows : List SearchRow)
      → ((id : ℕ) → count (has_id id) ys ≤ 1)
      → All (λ (r : SearchRow). 1 ≤ count (λ y. y.id == r.id && fits_row r y) ys) rows
      → All (λ (r : SearchRow). Fits ys (search_url r)) rows
  All-Fits ys [] one h = tt
  All-Fits ys (r ∷ rows) one (h, hs) =
      (only-Fits r ys (omega (arith, one r.id)), All-Fits ys rows one hs)

  All-map_search :
      (P : SearchUrl → Type 0) (rows : List SearchRow)
      → All (λ (r : SearchRow). P (search_url r)) rows
      → All P (map search_url rows)
  All-map_search P [] h = tt
  All-map_search P (r ∷ rows) h = (h.0, All-map_search P rows h.1)

  pub pending-Fits :
      (limit at : ℕ) (d : Db)
      → ((id : ℕ) → count (has_id id) d.search_urls ≤ 1)
      → All (Fits d.search_urls) (select_pending limit at d)
  pending-Fits limit at d one = All-map_search (Fits d.search_urls) _ (
      All-take _ limit _
        (All-sort_stable _ _ _ (All-Fits d.search_urls _ one (counts-filter at d.search_urls))))

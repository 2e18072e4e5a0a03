-- ===== src/Validate/Watched.antt =====
-- Which searches the daily run and the validator come back to.
use mathlib.Core.Path.{subst}
use property_search.Prelude.{
  suc, ap, length, count, ◌≤◌, ℕ, ◌+◌, Text, ◌≡◌, refl, Bool, true, false, ◌&&◌, arith, update,
  List, [], ◌∷◌, map, filter, All, All-take, All-sort_stable, Bool-cases, inl, inr, ◌==◌, none,
  some,
}
use property_search.Store.{SearchRow, Validation, World, Db}
use property_search.Parser.{Card, parse_with_stats}
use property_search.Outside.{Outside, page}
use property_search.Validate.{check_each, check, classify, settle, run_once, or_default}
use property_search.Validate.Judged.{AllJudged, Judged-id, as_it_was, judged}
use property_search.Validate.Settled.{run_once-AllJudged, notify-Keeps}
use property_search.Repo.Searches.{
  SearchUrl, search_url, has_id, select_searches, is_valid_status, select_pending, is_unsettled,
  is_due, set_search_url_validation,
}

All-filter {ℓ κ} :
    {A : Type ℓ} (P : A → Type κ) (p : A → Bool) (xs : List A)
    → All (λ x. p x ≡ true → P x) xs
    → All P (filter p xs)
All-filter P p [] h = tt
All-filter P p (x ∷ xs) h = elim (Bool-cases (p x)) [
  | inl e ↦ rw e (h.0 e, All-filter P p xs h.1)
  | inr e ↦ rw e (All-filter P p xs h.1)
]

All-map_search :
    (P : ℕ → Type 0) (xs : List SearchRow)
    → All (λ (r : SearchRow). P r.id) xs
    → All (λ (s : SearchUrl). P s.id) (map search_url xs)
All-map_search P [] h = tt
All-map_search P (x ∷ xs) h = (h.0, All-map_search P xs h.1)

-- Every row of the search is valid but empty.
abbrev pub IsEmptied : ℕ → Db → Type 0
IsEmptied search d =
    All (λ (r : SearchRow). (r.id == search) ≡ true → r.validation_status ≡ Validation.valid_empty)
      d.search_urls

abbrev pub IsKeyed : Db → Type 0
IsKeyed d = (id : ℕ) → count (has_id id) d.search_urls ≤ 1

-- Later passes of the validator, each at a database that the one before left, in any world and with any
-- answers of the portal.
pub data Passes (d : Db) : Db → Type 0 where
  here : Passes d d
  pass :
      {d' : Db} (before : Passes d d') (o : Outside) (max_attempts batch_size : ℕ) (w : World)
      → w.db ≡ d'
      → Passes d (run_once o max_attempts batch_size w).1.db

module _ (o : Outside) (m : ℕ) (search : ℕ) where
  AllJudged-IsEmptied :
      (xs ys : List SearchRow)
      → AllJudged o m xs ys
      → All
          (λ (r : SearchRow).
            (r.id == search) ≡ true → r.validation_status ≡ Validation.valid_empty)
          xs
      → All
          (λ (r : SearchRow).
            (r.id == search) ≡ true → r.validation_status ≡ Validation.valid_empty)
          ys
  AllJudged-IsEmptied [] [] j h = tt
  AllJudged-IsEmptied [] (y ∷ ys) j h = elim j [ ]
  AllJudged-IsEmptied (x ∷ xs) [] j h = elim j [ ]
  AllJudged-IsEmptied (x ∷ xs) (y ∷ ys) (as_it_was e, j) (hx, h) =
      (rw e hx, AllJudged-IsEmptied xs ys j h)
  AllJudged-IsEmptied (x ∷ xs) (y ∷ ys) (judged u same v, j) (hx, h) = (
    λ k. absurd (clash (hx (subst (λ i. (i == search) ≡ true) same.0 k))),
    AllJudged-IsEmptied xs ys j h,
  )
    where
      clash : x.validation_status ≡ Validation.valid_empty → ⊥
      clash e = ground (arith, u, ap is_unsettled e)

  AllJudged-count :
      (id : ℕ) (xs ys : List SearchRow)
      → AllJudged o m xs ys
      → count (has_id id) ys ≡ count (has_id id) xs
  AllJudged-count id [] [] j = refl
  AllJudged-count id [] (y ∷ ys) j = elim j [ ]
  AllJudged-count id (x ∷ xs) [] j = elim j [ ]
  AllJudged-count id (x ∷ xs) (y ∷ ys) (j, js) =
      ground (arith, Judged-id o m (x ∷ xs) x y j, AllJudged-count id xs ys js)

Passes-IsEmptied :
    (search : ℕ) (d d' : Db)
    → IsEmptied search d × IsKeyed d
    → Passes d d'
    → IsEmptied search d' × IsKeyed d'
Passes-IsEmptied search d _ h here = h
Passes-IsEmptied search d _ h (pass {d'} before o m b w at) =
    let (empty, one) = Passes-IsEmptied search d d' h before in
    let keyed : IsKeyed w.db = rw at one in
    let judged_all = run_once-AllJudged o m b w keyed in
    (
      AllJudged-IsEmptied o (or_default m 5) search w.db.search_urls _ judged_all (rw at empty),
      λ id.
          rw (AllJudged-count o (or_default m 5) search id w.db.search_urls _ judged_all)
            (keyed id),
    )

-- What stands in the way of a test on the status.
not_watched :
    (search : ℕ) (p : SearchRow → Bool) (xs : List SearchRow)
    → ((r : SearchRow) → r.validation_status ≡ Validation.valid_empty → p r ≡ false)
    → All
        (λ (r : SearchRow). (r.id == search) ≡ true → r.validation_status ≡ Validation.valid_empty)
        xs
    → All (λ (r : SearchRow). p r ≡ true → (r.id == search) ≡ false) xs
not_watched search p [] never h = tt
not_watched search p (x ∷ xs) never (hx, h) = elim (Bool-cases (x.id == search)) [
  | inl e ↦ ((λ k. ground (arith, never x (hx e), k)), not_watched search p xs never h)
  | inr e ↦ ((λ k. e), not_watched search p xs never h)
]

-- The check of one search.
module _ (o : Outside) (max_attempts : ℕ) (s : SearchUrl) (cards : List Card) (w : World) where
  abbrev settle_empty : SearchRow → SearchRow
  settle_empty r = record r {
    validation_status = Validation.valid_empty;
    attempts = r.attempts + 1;
    next_check_at = none;
    last_checked_at = some (w.env.clock (suc (suc w.step)));
  }

  checked_rows :
      w.env.cancels w.step ≡ false
      → o.pages (suc w.step) s.url ≡ page 200 (some cards)
      → (length (parse_with_stats o.net o.casing o.float_parser cards s.url).0 == 0) ≡ true
      → w.env.db_fails (suc (suc w.step)) ≡ false
      → (check_each o max_attempts 0 (s ∷ []) w).1.db.search_urls
        ≡ update (has_id s.id) settle_empty w.db.search_urls
  unfolding check_each check classify settle set_search_url_validation
  checked_rows alive answer none_left up =
      rw (alive, answer, none_left, up)
        ((notify-Keeps (λ d. d.search_urls ≡ update (has_id s.id) settle_empty w.db.search_urls)
            s.id _).at
          _ refl)

  update-IsEmptied :
      (xs : List SearchRow)
      → All
          (λ (r : SearchRow). (r.id == s.id) ≡ true → r.validation_status ≡ Validation.valid_empty)
          (update (has_id s.id) settle_empty xs)
  update-IsEmptied [] = tt
  update-IsEmptied (x ∷ xs) = elim (Bool-cases (has_id s.id x)) [
    | inl e ↦ rw e ((λ h. refl), update-IsEmptied xs)
    | inr e ↦ rw e ((λ h. ground (arith, e, h)), update-IsEmptied xs)
  ]

  count-update :
      (id : ℕ) (xs : List SearchRow)
      → count (has_id id) (update (has_id s.id) settle_empty xs) ≡ count (has_id id) xs
  count-update id [] = refl
  count-update id (x ∷ xs) = ground (arith, count-update id xs)

-- A search whose page has status 200 and no listings, when the validator checks it with the context alive
-- and the database there, is not watched: after that check, and after any number of later passes of
-- the validator, whatever the portal then answers, it is neither among the searches that a cycle of a
-- user fetches, nor among those that are due for a pass, at any time. The ids of the searches are distinct.
pub valid_empty-unwatched :
    (o : Outside) (max_attempts : ℕ) (s : SearchUrl) (cards : List Card) (w : World)
    (user limit later : ℕ) (collate : Text → Text → Bool) (d : Db)
    → IsKeyed w.db
    → w.env.cancels w.step ≡ false
    → o.pages (suc w.step) s.url ≡ page 200 (some cards)
    → (length (parse_with_stats o.net o.casing o.float_parser cards s.url).0 == 0) ≡ true
    → w.env.db_fails (suc (suc w.step)) ≡ false
    → Passes (check_each o max_attempts 0 (s ∷ []) w).1.db d
    → All
        (λ (x : SearchUrl). (x.id == s.id) ≡ false)
        (select_searches collate user (λ r. is_valid_status r.validation_status) d)
      × All (λ (x : SearchUrl). (x.id == s.id) ≡ false) (select_pending limit later d)
valid_empty-unwatched o max_attempts s cards w user limit later collate d one alive answer none_left
      up passes =
    let rows = checked_rows o max_attempts s cards w alive answer none_left up in
    let emptied : IsEmptied s.id (check_each o max_attempts 0 (s ∷ []) w).1.db =
      rw rows (update-IsEmptied o max_attempts s cards w w.db.search_urls) in
    let keyed : IsKeyed (check_each o max_attempts 0 (s ∷ []) w).1.db =
      λ id. rw (rows, count-update o max_attempts s cards w id w.db.search_urls) (one id) in
    let h : IsEmptied s.id d = (Passes-IsEmptied s.id _ d (emptied, keyed) passes).0 in
    (
      All-map_search (λ i. (i == s.id) ≡ false) _
          (All-sort_stable _ _ _ (
            All-filter _ _ _ (
              not_watched s.id
                (λ (r : SearchRow). r.user_id == user && is_valid_status r.validation_status)
                d.search_urls (λ r e. ground (arith, ap is_valid_status e)) h))),
      All-map_search (λ i. (i == s.id) ≡ false) _
          (All-take _ limit _ (
            All-sort_stable _ _ _ (
              All-filter _ _ _ (
                not_watched s.id
                  (λ (r : SearchRow).
                    is_unsettled r.validation_status && is_due later r.next_check_at)
                  d.search_urls (λ r e. ground (arith, ap is_unsettled e)) h)))),
    )

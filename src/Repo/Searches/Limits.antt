-- ===== src/Repo/Searches/Limits.antt =====
-- The limits on a user's searches that `AddSearchURLChecked` and the two unique indexes of
-- `search_urls` enforce.
use property_search.Prelude.{
  ℕ, suc, ◌≤◌, ◌<◌, ◌==◌, Text, ◌≡◌, refl, true, false, not, ◌&&◌, ◌⊎◌, inl, inr, List, [], ◌∷◌,
  Option, none, some, arith, leb, any, find?, update, count, text_eq, text_eq_iff, Bool-cases,
  Option-cases, count-snoc, count-any-false, find?-none,
}
use property_search.Store.{
  SearchRow, Db, World, Result, ok, err, unique_violation, bad_url, tick, Keeps, Keeps-raise,
  Keeps-pure, Keeps-bind, Keeps-transaction,
}
use property_search.Repo.Users.{has_user}
use property_search.Repo.Searches.{
  max_search_urls_per_user, owned, same_url, labelled, insert_search, insert_checked, add_checked,
  add_search_url_checked, label_error, or_bad_url,
}

-- No user has more than the maximum of searches, nor two under one label or for one URL.
pub record WithinLimits (d : Db) : Type 0 where
  pub capped : (user : ℕ) → count (owned user) d.search_urls ≤ max_search_urls_per_user
  pub one_label : (user : ℕ) (label : Text) → count (labelled user label) d.search_urls ≤ 1
  pub one_url : (user : ℕ) (norm : Text) → count (same_url user norm) d.search_urls ≤ 1

abbrev pub relabel : ℕ → Text → Text → List SearchRow → List SearchRow
relabel user norm label = update (same_url user norm) (λ r. record r { label = label })

pub count-relabel-owned :
    (u user : ℕ) (norm label : Text) (xs : List SearchRow)
    → count (owned u) (relabel user norm label xs) ≡ count (owned u) xs
count-relabel-owned u user norm label [] = refl
count-relabel-owned u user norm label (x ∷ xs) =
    ground (arith, count-relabel-owned u user norm label xs)

count-relabel_url :
    (u user : ℕ) (n norm label : Text) (xs : List SearchRow)
    → count (same_url u n) (relabel user norm label xs) ≡ count (same_url u n) xs
count-relabel_url u user n norm label [] = refl
count-relabel_url u user n norm label (x ∷ xs) =
    ground (arith, count-relabel_url u user n norm label xs)

-- A label other than the new one, or of another user, is not given to any row.
count-relabel_ne :
    (u user : ℕ) (l norm label : Text) (xs : List SearchRow)
    → ((u == user) && text_eq label l) ≡ false
    → count (labelled u l) (relabel user norm label xs) ≤ count (labelled u l) xs
count-relabel_ne u user l norm label [] h = omega arith
count-relabel_ne u user l norm label (x ∷ xs) h =
    ground (arith, count-relabel_ne u user l norm label xs h)

-- The rows with the new label are the relabelled ones, if no other row had it.
count-relabel_eq :
    (user : ℕ) (norm label : Text) (xs : List SearchRow)
    → any (λ r. labelled user label r && not (same_url user norm r)) xs ≡ false
    → count (labelled user label) (relabel user norm label xs) ≤ count (same_url user norm) xs
count-relabel_eq user norm label [] h = omega arith
count-relabel_eq user norm label (x ∷ xs) h = ground (arith, count-relabel_eq user norm label xs)

module _ (user : ℕ) (label url norm : Text) (d : Db) (limits : WithinLimits d) where
  relabel_one_label :
      any (λ r. labelled user label r && not (same_url user norm r)) d.search_urls ≡ false
      → (u : ℕ) (l : Text) → count (labelled u l) (relabel user norm label d.search_urls) ≤ 1
  relabel_one_label free u l = elim (Bool-cases ((u == user) && text_eq label l)) [
    | inl same ↦ ground (
      arith,
      text_eq_iff label l,
      count-relabel_eq user norm label d.search_urls free,
      limits.one_url user norm,
    )
    | inr other ↦
        omega
          (arith, count-relabel_ne u user l norm label d.search_urls other, limits.one_label u l)
  ]

  -- An insert keeps the limits if it finds the URL, or room for one more.
  pub insert_search-WithinLimits :
      (any (same_url user norm) d.search_urls ≡ true)
        ⊎ (count (owned user) d.search_urls < max_search_urls_per_user)
      → WithinLimits (insert_search user label url norm d).1
  unfolding insert_search
  insert_search-WithinLimits room = elim (Option-cases (find? (same_url user norm) d.search_urls)) [
    | inr (s, found) ↦
        elim (Bool-cases
          (any (λ r. labelled user label r && not (same_url user norm r)) d.search_urls)) [
            | inl taken ↦ rw (found, taken, insert_search) limits
            | inr free ↦
                rw (found, free, insert_search)
                  (record {
                    capped = λ u. omega (
                      arith,
                      count-relabel-owned u user norm label d.search_urls,
                      limits.capped u,
                    );
                    one_label = relabel_one_label free;
                    one_url = λ u n. omega (
                      arith,
                      count-relabel_url u user n norm label d.search_urls,
                      limits.one_url u n,
                    );
                  })
          ]
    | inl new ↦ elim (Bool-cases (has_user user d)) [
      | inr unknown ↦ rw (new, unknown, insert_search) limits
      | inl known ↦ elim (Bool-cases (any (labelled user label) d.search_urls)) [
        | inl taken ↦ rw (new, known, taken, insert_search) limits
        | inr free ↦
            rw (new, known, free, insert_search)
              (record {
                capped = λ u. rw count-snoc (
                    ground
                      (arith, limits.capped u, find?-none (same_url user norm) d.search_urls new));
                one_label = λ u l. rw count-snoc (
                    ground (
                      arith,
                      limits.one_label u l,
                      text_eq_iff label l,
                      count-any-false (labelled user label) d.search_urls free,
                    ));
                one_url = λ u n. rw count-snoc (
                    ground (
                      arith,
                      limits.one_url u n,
                      text_eq_iff norm n,
                      count-any-false (same_url user norm) d.search_urls
                          (find?-none (same_url user norm) d.search_urls new),
                    ));
              })
      ]
    ]
  ]

pub label_error-db : (x : Result ℕ × Db) → (label_error x).1 ≡ x.1
label_error-db (ok id, d) = refl
label_error-db (err unique_violation, d) = refl
label_error-db (err _, d) = refl

module _ (user : ℕ) (label raw_url norm : Text) where
  -- The count and the look-up stand: nothing is written between them and the insert.
  insert_checked-WithinLimits :
      (w : World)
      → WithinLimits w.db
      → WithinLimits
          (insert_checked user label raw_url norm
            (count (owned user) w.db.search_urls)
            (any (same_url user norm) w.db.search_urls)
            w).1.db
  insert_checked-WithinLimits w h =
      elim (Bool-cases (
        not (any (same_url user norm) w.db.search_urls)
        && leb max_search_urls_per_user (count (owned user) w.db.search_urls))) [
          | inl full ↦ rw full h
          | inr room ↦ elim (Bool-cases (w.env.db_fails w.step)) [
            | inl e ↦ rw (room, e) h
            | inr e ↦
                rw (room, e, label_error-db)
                  (insert_search-WithinLimits user label raw_url norm w.db h (ground arith))
          ]
        ]

  add_checked-WithinLimits : Keeps WithinLimits (add_checked user label raw_url norm)
  unfolding add_checked
  add_checked-WithinLimits = record {
    at = λ w h. elim (Bool-cases (w.env.db_fails w.step)) [
      | inl e ↦ rw e h
      | inr e ↦ elim (Bool-cases (w.env.db_fails (suc w.step))) [
        | inl e' ↦ rw (e, e') h
        | inr e' ↦ elim (Bool-cases (w.env.db_fails (suc (suc w.step)))) [
          | inl e'' ↦ rw (e, e', e'') h
          | inr e'' ↦ rw (e, e', e'') (insert_checked-WithinLimits (tick (tick (tick w))) h)
        ]
      ]
    ];
  }

or_bad_url-Keeps : (o : Option Text) → Keeps WithinLimits (or_bad_url o)
or_bad_url-Keeps none = Keeps-raise bad_url
or_bad_url-Keeps (some norm) = Keeps-pure norm

module _ (normalize : Text → Option Text) where
  -- In a database where no user has more than five searches, nor two under one label or for one URL,
  -- registering a search leaves it so, whether it succeeds, is refused or fails at any of its
  -- statements.
  pub add_search_url_checked-WithinLimits :
      (user : ℕ) (label raw_url : Text) (w : World)
      → WithinLimits w.db
      → WithinLimits (add_search_url_checked normalize user label raw_url w).1.db
  unfolding add_search_url_checked
  add_search_url_checked-WithinLimits user label raw_url w h =
      (Keeps-bind (or_bad_url (normalize raw_url)) _ (or_bad_url-Keeps (normalize raw_url))
          (λ norm. Keeps-transaction _ (add_checked-WithinLimits user label raw_url norm))).at
        w h

-- ===== src/Repo/Searches/Concurrent/Facts.antt =====
-- What a call of `AddSearchURLChecked` has read, against the statements of the other calls.
use property_search.Prelude.{
  ℕ, ◌≤◌, ◌<◌, ◌≡◌, refl, Text, Bool, true, false, not, ◌&&◌, ◌⊎◌, inl, inr, ◌==◌, List, [], ◌∷◌,
  ◌++◌, filter, any, find?, any-snoc, count, count-snoc, arith, leb, Bool-cases, Option-cases,
}
use property_search.Store.{SearchRow, Db, World}
use property_search.Repo.Users.{has_user}
use property_search.Repo.Searches.{
  owned, same_url, labelled, insert_search, insert_checked, max_search_urls_per_user,
}
use property_search.Repo.Searches.Limits.{
  WithinLimits, insert_search-WithinLimits, label_error-db, relabel, count-relabel-owned,
}
use property_search.Repo.Searches.Concurrent.{
  Request, Phase, waiting, locked, ended, counted, looked, holds,
}

-- What a call has read still bounds what it may add.
abbrev pub Fact : Db → Request → Phase → Type 0
Fact d r (counted n) = count (owned r.user) d.search_urls ≤ n
Fact d r (looked n existing) =
    (count (owned r.user) d.search_urls ≤ n)
    × (existing ≡ true
        → (any (same_url r.user r.norm) d.search_urls ≡ true)
          ⊎ (count (owned r.user) d.search_urls < max_search_urls_per_user))
Fact d r _ = Unit

count-filter-le :
    (p keep : SearchRow → Bool) (xs : List SearchRow) → count p (filter keep xs) ≤ count p xs
count-filter-le p keep [] = omega arith
count-filter-le p keep (x ∷ xs) = ground (arith, count-filter-le p keep xs)

-- A row that was there is there still, or there is one row less.
any-filter :
    (user : ℕ) (norm : Text) (keep : SearchRow → Bool) (xs : List SearchRow)
    → any (same_url user norm) xs ≡ true
    → (any (same_url user norm) (filter keep xs) ≡ true)
      ⊎ (count (owned user) (filter keep xs) < count (owned user) xs)
any-filter user norm keep [] h = ground arith
any-filter user norm keep (x ∷ xs) h =
    ground (arith, any-filter user norm keep xs, count-filter-le (owned user) keep xs)

pub filter-WithinLimits :
    (keep : SearchRow → Bool) (d : Db)
    → WithinLimits d
    → WithinLimits (record d { search_urls = filter keep d.search_urls })
filter-WithinLimits keep d h = record {
  capped = λ u. omega (arith, count-filter-le (owned u) keep d.search_urls, h.capped u);
  one_label =
      λ u l. omega (arith, count-filter-le (labelled u l) keep d.search_urls, h.one_label u l);
  one_url = λ u n. omega (arith, count-filter-le (same_url u n) keep d.search_urls, h.one_url u n);
}

pub Fact-filter :
    (keep : SearchRow → Bool) (d : Db) (r : Request) (p : Phase)
    → WithinLimits d
    → Fact d r p
    → Fact (record d { search_urls = filter keep d.search_urls }) r p
Fact-filter keep d r (counted n) h f =
    omega (arith, count-filter-le (owned r.user) keep d.search_urls)
Fact-filter keep d r (looked n existing) h (f, g) = (
  omega (arith, count-filter-le (owned r.user) keep d.search_urls),
  λ e. elim (g e) [
    | inl there ↦ ground (arith, any-filter r.user r.norm keep d.search_urls there, h.capped r.user)
    | inr room ↦ inr (omega (arith, count-filter-le (owned r.user) keep d.search_urls))
  ],
)
Fact-filter keep d r waiting h f = tt
Fact-filter keep d r locked h f = tt
Fact-filter keep d r ended h f = tt

any-relabel :
    (u user : ℕ) (n norm label : Text) (xs : List SearchRow)
    → any (same_url u n) (relabel user norm label xs) ≡ any (same_url u n) xs
any-relabel u user n norm label [] = refl
any-relabel u user n norm label (x ∷ xs) = ground (arith, any-relabel u user n norm label xs)

-- The rows after an insert: as they were, one relabelled, or one more of the user.
data Inserted (user : ℕ) (label norm : Text) (old : List SearchRow) : List SearchRow → Type 0 where
  unchanged : Inserted user label norm old old
  relabelled : Inserted user label norm old (relabel user norm label old)
  appended : (r : SearchRow) → r.user_id ≡ user → Inserted user label norm old (old ++ r ∷ [])

insert_search-Inserted :
    (user : ℕ) (label url norm : Text) (d : Db)
    → Inserted user label norm d.search_urls (insert_search user label url norm d).1.search_urls
unfolding insert_search
insert_search-Inserted user label url norm d =
    elim (Option-cases (find? (same_url user norm) d.search_urls)) [
      | inr (r, found) ↦
          elim (Bool-cases
            (any (λ x. labelled user label x && not (same_url user norm x)) d.search_urls)) [
              | inl taken ↦ rw (found, taken, insert_search) unchanged
              | inr free ↦ rw (found, free, insert_search) relabelled
            ]
      | inl new ↦ elim (Bool-cases (has_user user d)) [
        | inr unknown ↦ rw (new, unknown, insert_search) unchanged
        | inl known ↦ elim (Bool-cases (any (labelled user label) d.search_urls)) [
          | inl taken ↦ rw (new, known, taken, insert_search) unchanged
          | inr free ↦ rw (new, known, free, insert_search) (appended _ refl)
        ]
      ]
    ]

-- What one user adds changes nothing that is counted or looked up for another.
abbrev pub SameFor : ℕ → List SearchRow → List SearchRow → Type 0
SameFor u old rows =
    (count (owned u) rows ≡ count (owned u) old)
    × ((n : Text) → any (same_url u n) rows ≡ any (same_url u n) old)

Inserted-others :
    {user : ℕ} {label norm : Text} {old rows : List SearchRow} (u : ℕ)
    → (u == user) ≡ false
    → Inserted user label norm old rows
    → SameFor u old rows
Inserted-others u ne unchanged = (refl, λ n. refl)
Inserted-others {user} {label} {norm} {old} u ne relabelled =
    (count-relabel-owned u user norm label old, λ n. any-relabel u user n norm label old)
Inserted-others {old = old} u ne (appended r e) =
    (rw count-snoc (ground arith), λ n. rw any-snoc (ground arith))

module _ (r : Request) (n : ℕ) (existing : Bool) (w : World) where
  abbrev pub checked : Db
  checked = (insert_checked r.user r.label r.raw_url r.norm n existing w).1.db

  -- The insert is refused, is lost, or takes place.
  insert_checked-cases :
      (checked ≡ w.db)
      ⊎ (((not existing && leb max_search_urls_per_user n) ≡ false)
          × (checked ≡ (insert_search r.user r.label r.raw_url r.norm w.db).1))
  insert_checked-cases = elim (Bool-cases (not existing && leb max_search_urls_per_user n)) [
    | inl full ↦ inl (rw (checked, full) refl)
    | inr room ↦ elim (Bool-cases (w.env.db_fails w.step)) [
      | inl e ↦ inl (rw (checked, room, e) refl)
      | inr e ↦ inr (
        room,
        rw (checked, room, e) (label_error-db (insert_search r.user r.label r.raw_url r.norm w.db)),
      )
    ]
  ]

  pub insert_checked-others :
      (u : ℕ) → (u == r.user) ≡ false → SameFor u w.db.search_urls checked.search_urls
  insert_checked-others u ne = elim insert_checked-cases [
    | inl e ↦ rw e (refl, λ m. refl)
    | inr (room, e) ↦
        rw e (Inserted-others u ne (insert_search-Inserted r.user r.label r.raw_url r.norm w.db))
  ]

  pub insert_checked-limits :
      WithinLimits w.db → Fact w.db r (looked n existing) → WithinLimits checked
  insert_checked-limits h (f, g) = elim insert_checked-cases [
    | inl e ↦ rw e h
    | inr (room, e) ↦
        rw e (insert_search-WithinLimits r.user r.label r.raw_url r.norm w.db h (ground (arith, g)))
  ]

-- Calls of other users see the same; the call that ends keeps nothing.
pub Fact-others :
    (d d' : Db) (q : Request) (p : Phase)
    → SameFor q.user d.search_urls d'.search_urls
    → Fact d q p
    → Fact d' q p
Fact-others d d' q (counted n) (same_count, same_any) f = rw same_count f
Fact-others d d' q (looked n existing) (same_count, same_any) (f, g) =
    (rw same_count f, λ e. rw (same_any q.norm, same_count) (g e))
Fact-others d d' q waiting same f = tt
Fact-others d d' q locked same f = tt
Fact-others d d' q ended same f = tt

pub Fact-unheld : (d : Db) (q : Request) (p : Phase) → holds p ≡ false → Fact d q p
Fact-unheld d q waiting h = tt
Fact-unheld d q locked h = tt
Fact-unheld d q ended h = tt
Fact-unheld d q (counted n) h = ground arith
Fact-unheld d q (looked n existing) h = ground arith

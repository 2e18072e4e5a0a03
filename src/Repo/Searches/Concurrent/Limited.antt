-- ===== src/Repo/Searches/Concurrent/Limited.antt =====
-- The limits on a user's searches while several calls of `AddSearchURLChecked` run at once.
use mathlib.Core.Path.{subst}
use property_search.Prelude.{
  ℕ, ◌≡◌, refl, sym, Bool, true, false, inl, inr, ◌==◌, ==_iff, arith, Bool-cases,
}
use property_search.Store.{Db, World}
use property_search.Repo.Searches.Limits.{WithinLimits}
use property_search.Repo.Searches.Concurrent.{
  Request, Phase, waiting, locked, ended, looked, holds, System, set, to_phase, Step, locks, counts,
  looks, inserts, aborts, deletes, Reach, here, next,
}
use property_search.Repo.Searches.Concurrent.Facts.{
  Fact, filter-WithinLimits, Fact-filter, checked, insert_checked-others, insert_checked-limits,
  Fact-others, Fact-unheld,
}

record Inv (calls : ℕ → Request) (s : System) : Type 0 where
  limits : WithinLimits s.db
  facts : (i : ℕ) → Fact s.db (calls i) (s.phase i)
  alone :
      (i j : ℕ)
      → holds (s.phase i) ≡ true
      → holds (s.phase j) ≡ true
      → ((calls i).user == (calls j).user) ≡ true
      → i ≡ j

module _ (calls : ℕ → Request) (phase : ℕ → Phase) (i : ℕ) (p : Phase) where
  set-facts :
      (d : Db)
      → ((j : ℕ) → Fact d (calls j) (phase j))
      → Fact d (calls i) p
      → (j : ℕ) → Fact d (calls j) (set phase i p j)
  set-facts d fs fp j = elim (Bool-cases (j == i)) [
    | inl e ↦ rw (e, (==_iff j i).0 e) fp
    | inr ne ↦ rw ne (fs j)
  ]

  -- A call that goes on has its row already.
  holds-set :
      (holds p ≡ true → holds (phase i) ≡ true)
      → (j : ℕ) → holds (set phase i p j) ≡ true
      → holds (phase j) ≡ true
  holds-set on j h = ground (arith, on, ==_iff j i)

abbrev IsAlone : (ℕ → Request) → (ℕ → Phase) → Type 0
IsAlone calls phase =
    (i j : ℕ)
    → holds (phase i) ≡ true
    → holds (phase j) ≡ true
    → ((calls i).user == (calls j).user) ≡ true
    → i ≡ j

-- A step of one call on the way that writes nothing.
to_phase-Inv :
    (calls : ℕ → Request) (s : System) (i : ℕ) (p : Phase)
    → Inv calls s
    → (holds p ≡ true → holds (s.phase i) ≡ true)
    → Fact s.db (calls i) p
    → Inv calls (to_phase s i p)
to_phase-Inv calls s i p inv on fp = record {
  limits = inv.limits;
  facts = set-facts calls s.phase i p s.db inv.facts fp;
  alone = λ j k hj hk e.
      inv.alone j k (holds-set calls s.phase i p on j hj) (holds-set calls s.phase i p on k hk) e;
}

module _ (calls : ℕ → Request) where
  locks-IsAlone :
      (s : System) (i : ℕ)
      → ((j : ℕ) → holds (s.phase j) ≡ true → ((calls j).user == (calls i).user) ≡ false)
      → Inv calls s
      → IsAlone calls (set s.phase i locked)
  locks-IsAlone s i free inv j k hj hk e = elim (Bool-cases (j == i)) [
    | inl ej ↦ elim (Bool-cases (k == i)) [
      | inl ek ↦ ground (arith, ==_iff j i, ==_iff k i)
      | inr nk ↦
          (let e' : ((calls i).user == (calls k).user) ≡ true = rw (sym ((==_iff j i).0 ej)) e in
            ground (arith, free k, ==_iff (calls i).user (calls k).user))
    ]
    | inr nj ↦ elim (Bool-cases (k == i)) [
      | inl ek ↦
          (let e' : ((calls j).user == (calls i).user) ≡ true = rw (sym ((==_iff k i).0 ek)) e in
            ground (arith, free j))
      | inr nk ↦ ground (arith, inv.alone j k)
    ]
  ]

  -- The calls of other users, and the call that has ended, after an insert.
  inserts-facts :
      (s : System) (i n : ℕ) (existing : Bool) (w : World)
      → s.phase i ≡ looked n existing
      → w.db ≡ s.db
      → Inv calls s
      → (j : ℕ) → Fact (checked (calls i) n existing w) (calls j) (set s.phase i ended j)
  inserts-facts s i n existing w at same inv j = elim (Bool-cases (j == i)) [
    | inl e ↦ rw e tt
    | inr ne ↦ rw ne (elim (Bool-cases ((calls j).user == (calls i).user)) [
      | inl one ↦ elim (Bool-cases (holds (s.phase j))) [
        | inl held ↦
            (let mine : holds (s.phase i) ≡ true = rw at refl in
              ground (arith, inv.alone j i held mine one, ==_iff j i))
        | inr unheld ↦ Fact-unheld (checked (calls i) n existing w) (calls j) (s.phase j) unheld
      ]
      | inr other ↦
          Fact-others w.db (checked (calls i) n existing w) (calls j) (s.phase j)
            (insert_checked-others (calls i) n existing w (calls j).user other)
            (rw same (inv.facts j))
    ])
  ]

  Step-Inv : {s t : System} → Step calls s t → Inv calls s → Inv calls t
  Step-Inv {s} (locks i at known free) inv = record {
    limits = inv.limits;
    facts = set-facts calls s.phase i locked s.db inv.facts tt;
    alone = locks-IsAlone s i free inv;
  }
  Step-Inv {s} (counts i at) inv = to_phase-Inv calls s i _ inv (λ h. rw at refl) (omega arith)
  Step-Inv {s} (looks i n at) inv =
      to_phase-Inv calls s i _ inv (λ h. rw at refl)
        (subst (Fact s.db (calls i)) at (inv.facts i), λ e. inl e)
  Step-Inv {s} (inserts i n existing w at same) inv = record {
    limits =
        insert_checked-limits (calls i) n existing w (rw same inv.limits)
          (rw same (subst (Fact s.db (calls i)) at (inv.facts i)));
    facts = inserts-facts s i n existing w at same inv;
    alone = λ j k hj hk e.
        inv.alone j k (holds-set calls s.phase i ended (λ h. ground arith) j hj)
          (holds-set calls s.phase i ended (λ h. ground arith) k hk) e;
  }
  Step-Inv {s} (aborts i) inv = to_phase-Inv calls s i ended inv (λ h. ground arith) tt
  Step-Inv {s} (deletes keep) inv = record {
    limits = filter-WithinLimits keep s.db inv.limits;
    facts = λ j. Fact-filter keep s.db (calls j) (s.phase j) inv.limits (inv.facts j);
    alone = inv.alone;
  }

  Reach-Inv : {s t : System} → Reach calls s t → Inv calls s → Inv calls t
  Reach-Inv here inv = inv
  Reach-Inv (next before step) inv = Step-Inv step (Reach-Inv before inv)

-- However many calls run at once and however their statements, failures and the deletions of others
-- are interleaved, no user ever has more than five searches, nor two under one label or for one URL:
-- from a database where that holds, and in which every call is yet to start.
pub Reach-WithinLimits :
    (calls : ℕ → Request) (s t : System)
    → ((i : ℕ) → s.phase i ≡ waiting)
    → WithinLimits s.db
    → Reach calls s t
    → WithinLimits t.db
Reach-WithinLimits calls s t idle limits run =
    (Reach-Inv calls run (record {
      limits = limits;
      facts = λ i. Fact-unheld s.db (calls i) (s.phase i) (rw (idle i) refl);
      alone = λ i j hi hj e. ground (arith, idle i);
    })).limits

-- ===== src/Digest/Overlapping/Once.antt =====
-- How often a listing is sent to a user by runs that overlap.
use property_search.Prelude.{ℕ, ◌+◌, ◌≤◌, ◌≡◌, refl, true, arith, count, ◌==◌, ==_iff, inl, inr}
use property_search.Repo.Listings.{select_candidates}
use property_search.Score.{Weights}
use property_search.Outside.{Outside}
use property_search.Digest.Runner.{rank, run_limit}
use property_search.Digest.Runner.Indexing.{IsKeyed}
use property_search.Digest.Runner.Once.{is_ranked}
use property_search.Digest.Runner.Room.{room, room-le, select_candidates-one, count-rank}
use property_search.Digest.Overlapping.{
  Call, waiting, indexing, over, System, Step, locks, reads, skips, sends, marks, loses, ends,
  others, Reach, here, next,
}
use property_search.Digest.Overlapping.Budget.{
  is_card_to, left, is_due, holds-due, due-records, set-all, sent_to, mine, Inv, goes_on-IsAlone,
  locks-IsAlone, to_phase-Inv,
}
use property_search.Digest.Overlapping.Sends.{sends-Inv, marks-Inv}

module _ (calls : ℕ → Call) (user chat item base : ℕ) where
  module _
      (private : (j : ℕ)
        → ((calls j).chat == chat) ≡ true
        → mine calls user chat item base j ≡ true) where
    reads-owed :
        (o : Outside) (max_per_run : ℕ) (s : System) (i : ℕ) (v : Weights)
        → s.phase i ≡ indexing
        → Inv calls user chat item base s
        → mine calls user chat item base i ≡ true
        → count
              (is_ranked item)
              (rank o v (select_candidates (calls i).user (run_limit max_per_run) s.db))
            + sent_to calls user chat item base s
          ≤ base + s.lost
    reads-owed o m s i v at inv mi = rw ((==_iff (calls i).user user).0 mi) (elim inv.budget [
      | inl b ↦ ground (
        arith,
        count-rank user item o v (select_candidates user (run_limit m) s.db),
        select_candidates-one user item (run_limit m) s.db inv.keyed,
      )
      | inr (j, mj, dj) ↦
          absurd (clash j (inv.alone j i mj mi (holds-due item (s.phase j) dj) (rw at refl)) dj)
    ])
      where
        clash : (j : ℕ) → j ≡ i → is_due item (s.phase j) ≡ true → ⊥
        clash j e dj = ground (arith, at)

    Step-Inv :
        (o : Outside) (max_per_run : ℕ) {s t : System}
        → Step o max_per_run calls s t
        → Inv calls user chat item base s
        → Inv calls user chat item base t
    Step-Inv o m {s} (locks i at free) inv =
        to_phase-Inv calls user chat item base s i indexing inv
          (locks-IsAlone calls user chat item base s i free inv) (λ mi. ground (arith, inv.spent))
          (rw at refl)
    Step-Inv o m {s} (reads i n v at) inv =
        to_phase-Inv calls user chat item base s i _ inv
          (goes_on-IsAlone calls user chat item base s.phase i _ inv.alone (λ h. rw at refl))
          (λ mi. reads-owed o m s i v at inv mi) (rw at refl)
    Step-Inv o m {s} (skips i k n r rs at) inv =
        to_phase-Inv calls user chat item base s i _ inv
          (goes_on-IsAlone calls user chat item base s.phase i _ inv.alone (λ h. rw at refl))
          (λ mi. ground (arith, at, inv.owed i mi)) (rw at refl)
    Step-Inv o m {s} (sends i k n r rs at) inv =
        sends-Inv calls user chat item base private s i k n r rs at inv
    Step-Inv o m {s} (marks i k n t r rs at done) inv =
        marks-Inv calls user chat item base private s i k n t r rs at done inv
    Step-Inv o m {s} (loses i k n r rs at) inv = record {
      keyed = inv.keyed;
      alone =
          goes_on-IsAlone calls user chat item base s.phase i over inv.alone (λ h. ground arith);
      owed =
          set-all
            (λ j q.
              mine calls user chat item base j ≡ true
              → count (is_ranked item) (left q) + sent_to calls user chat item base s
                ≤ base + (s.lost + 1))
            s.phase i over (λ j mj. omega (arith, inv.owed j mj)) (λ mi. omega (arith, inv.spent));
      budget = inl (ground (arith, inv.spent));
      spent = omega (arith, inv.spent);
    }
    Step-Inv o m {s} (ends i free) inv =
        to_phase-Inv calls user chat item base s i over inv
          (goes_on-IsAlone calls user chat item base s.phase i over inv.alone (λ h. ground arith))
          (λ mi. omega (arith, inv.spent)) (due-records item (s.phase i) free)
    Step-Inv o m {s} (others d g) inv = record {
      keyed = (g user item).1 inv.keyed;
      alone = inv.alone;
      owed = inv.owed;
      budget = elim inv.budget [
        | inl b ↦ inl (omega (arith, room-le user item s.db d (g user item)))
        | inr k ↦ inr k
      ];
      spent = inv.spent;
    }

    Reach-Inv :
        (o : Outside) (max_per_run : ℕ) {s t : System}
        → Reach o max_per_run calls s t
        → Inv calls user chat item base s
        → Inv calls user chat item base t
    Reach-Inv o m here inv = inv
    Reach-Inv o m (next before step) inv = Step-Inv o m step (Reach-Inv o m before inv)

-- However the cycles of the program overlap, statement by statement, started by the schedule, at the
-- start or by users: a listing is sent to a user at most once, not at all if it was delivered before,
-- and once more for each send that could not be recorded. The chat is one of the user alone, the ids of
-- the listings are distinct, and every cycle is yet to start.
pub Reach-sent_once :
    (o : Outside) (max_per_run : ℕ) (calls : ℕ → Call) (user chat item : ℕ) (s t : System)
    → ((j : ℕ) → ((calls j).chat == chat) ≡ true → ((calls j).user == user) ≡ true)
    → ((i : ℕ) → s.phase i ≡ waiting)
    → s.lost ≡ 0
    → IsKeyed s.db
    → Reach o max_per_run calls s t
    → count (is_card_to chat item) t.log
      ≤ count (is_card_to chat item) s.log + room user item s.db + t.lost
Reach-sent_once o m calls user chat item s t private idle none_lost keyed run =
    let base = count (is_card_to chat item) s.log + room user item s.db in
    (Reach-Inv calls user chat item base private o m run (record {
      keyed = keyed;
      alone = λ i j mi mj hi hj. ground (arith, idle i);
      owed = λ i mi. rw (idle i) (omega arith);
      budget = inl (omega arith);
      spent = omega arith;
    })).spent

-- ===== src/Scheduler/First.antt =====
-- internal/scheduler/scheduler.go: the next run against the occurrences of the hour.
use property_search.Prelude.{
  ℕ, suc, ◌≤◌, ◌<◌, ◌≡◌, List, [], ◌∷◌, All, arith, ltb, Bool-cases, inl, inr, ◌⊎◌,
}
use property_search.Scheduler.{Zone, Round, next_run, run}

-- Package time in a zone where the hour exists on every day: `Date` stays on its day, `AddDate` goes
-- to the same hour of the next day, and later instants do not fall on earlier days.
pub record IsCalendar (z : Zone) (hour minute : ℕ) : Type 0 where
  pub same_day : (d : ℕ) → z.day_of (z.date d hour minute) ≡ d
  pub next_day : (d : ℕ) → z.add_day (z.date d hour minute) ≡ z.date (suc d) hour minute
  pub ordered : (s t : ℕ) → s ≤ t → z.day_of s ≤ z.day_of t

module _ (z : Zone) (hour minute : ℕ) (cal : IsCalendar z hour minute) where
  date-le : (d e : ℕ) → d ≤ e → z.date d hour minute ≤ z.date e hour minute
  date-le d e le = ground (
    arith,
    cal.ordered (z.date e hour minute) (z.date d hour minute),
    cal.same_day d,
    cal.same_day e,
  )

  -- The next run comes after now, and no day's hour lies between the two.
  pub next_run_first :
      (now : ℕ)
      → (now < next_run z now hour minute)
        × ((d : ℕ)
            → (z.date d hour minute ≤ now) ⊎ (next_run z now hour minute ≤ z.date d hour minute))
  unfolding next_run
  next_run_first now = elim (Bool-cases (ltb now (z.date (z.day_of now) hour minute))) [
    | inl e ↦ rw e (
      ground arith,
      λ d.
          ground (
            arith,
            cal.ordered now (z.date d hour minute),
            cal.same_day d,
            date-le (z.day_of now) d,
          ),
    )
    | inr e ↦
        rw (e, cal.next_day (z.day_of now))
          (
            ground (
              arith,
              cal.ordered (z.date (suc (z.day_of now)) hour minute) now,
              cal.same_day (suc (z.day_of now)),
            ),
            λ d. ground (
              arith,
              cal.ordered now (z.date d hour minute),
              cal.same_day d,
              date-le (suc (z.day_of now)) d,
              date-le d (z.day_of now),
            ),
          )
  ]

  -- The job never runs at the start: each of its runs comes after the instant at which the scheduler
  -- began, if the clock does not show less than that later on.
  pub run_after_start :
      (start : ℕ) (rounds : List Round)
      → All (λ (r : Round). start ≤ r.now) rounds
      → All (λ t. start < t) (run z hour minute rounds)
  unfolding run
  run_after_start start [] h = tt
  run_after_start start (r ∷ rs) (hr, h) = elim (Bool-cases r.canceled) [
    | inl e ↦ rw e tt
    | inr e ↦
        rw e (let (later, _) = next_run_first r.now in (omega arith, run_after_start start rs h))
  ]

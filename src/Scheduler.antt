-- ===== src/Scheduler.antt =====
-- internal/scheduler/scheduler.go: the instants of the daily digest. Instants are nanoseconds; what
-- package time does in a zone is a parameter.
pub mod First
use property_search.Prelude.{ℕ, suc, ◌+◌, ◌-◌, Bool, List, [], ◌∷◌, ltb, if◌then◌else◌}

-- `now.In(loc)` gives the local calendar day; `time.Date` the instant of an hour and minute of a day;
-- `AddDate(0, 0, 1)` the instant one local day later.
pub record Zone : Type 0 where
  pub day_of : ℕ → ℕ
  pub date : ℕ → ℕ → ℕ → ℕ
  pub add_day : ℕ → ℕ

-- `NextRun`
unfoldable pub next_run : Zone → ℕ → ℕ → ℕ → ℕ
next_run z now hour minute =
    let next = z.date (z.day_of now) hour minute in if ltb now next then next else z.add_day next

-- One round of `Run`: what the clock shows for `NextRun` and for `time.Until`, and whether the
-- context ends during the wait.
pub record Round : Type 0 where
  pub now : ℕ
  pub waiting_from : ℕ
  pub canceled : Bool

-- `Run`: the instants at which the timer fires and the job runs, until the context ends.
unfoldable pub run : Zone → ℕ → ℕ → List Round → List ℕ
unfolding next_run
run z hour minute [] = []
run z hour minute (r ∷ rs) =
    let rest = run z hour minute rs in
    let wait = next_run z r.now hour minute - r.waiting_from in
    if r.canceled then [] else (r.waiting_from + wait) ∷ rest

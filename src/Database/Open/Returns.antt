-- ===== src/Database/Open/Returns.antt =====
-- internal/db/db.go: the end of the loop of `Open`.
use mathlib.Core.Path.{subst}
use property_search.Prelude.{
  ==_iff, ◌==◌, sym, ℕ, zero, suc, ℤ, ◌+◌, ◌*◌, ◌/◌, ◌≤◌, ◌<◌, ◌≡◌, true, false, refl, some, arith,
  ltb, Bool-cases, inl, inr,
}
use property_search.Database.Open.{
  Dials, Opened, pool, unreachable, canceled, open_loop, open_pool, connect_timeout, retry_delay,
}

-- An attempt that failed, after which the deadline was not over and the context did not end.
pub record GoesOn (d : Dials) (deadline k : ℕ) : Type 0 where
  pub down : d.connects k ≡ false
  pub early : d.clock k ≤ deadline
  pub alive : d.cancels k ≡ false

-- What the last attempt came to.
pub data Ends (d : Dials) (deadline k : ℕ) : Opened → Type 0 where
  connected : d.connects k ≡ true → Ends d deadline k (pool k)
  late : d.connects k ≡ false → deadline < d.clock k → Ends d deadline k unreachable
  interrupted :
      d.connects k ≡ false → d.clock k ≤ deadline → d.cancels k ≡ true → Ends d deadline k canceled

-- The attempts from `first` on: the last one, and that each before it had to go on.
abbrev pub Decided : Dials → ℕ → ℕ → Opened → Type 0
Decided d deadline first o =
    (k : ℕ) × (first ≤ k)
    × ((j : ℕ) → first ≤ j → j < k → GoesOn d deadline j)
    × Ends d deadline k o

open_loop-returns :
    (d : Dials) (deadline fuel attempt : ℕ)
    → ((k : ℕ) → d.clock k + retry_delay ≤ d.clock (suc k))
    → deadline < d.clock attempt + fuel * retry_delay
    → (o : Opened) × (open_loop d deadline (suc fuel) attempt ≡ some o)
      × Decided d deadline attempt o
unfolding open_loop
open_loop-returns d deadline zero attempt ticks late_by = elim (Bool-cases (d.connects attempt)) [
  | inl up ↦ (pool attempt, rw up refl, at_once (connected up))
  | inr down ↦
      (let over : ltb deadline (d.clock attempt) ≡ true = ground arith in
        (unreachable, rw (down, over) refl, at_once (late down (ground arith))))
]
  where
    at_once : {o : Opened} → Ends d deadline attempt o → Decided d deadline attempt o
    at_once h = (attempt, omega arith, λ j a b. absurd (omega arith), h)
open_loop-returns d deadline (suc fuel) attempt ticks late_by =
    let next = ticks attempt in
    let (o, e, (k, le, before, end)) =
      open_loop-returns d deadline fuel (suc attempt) ticks (omega arith) in
    elim (Bool-cases (d.connects attempt)) [
      | inl up ↦ (pool attempt, rw up refl, at_once (connected up))
      | inr down ↦ elim (Bool-cases (ltb deadline (d.clock attempt))) [
        | inl over ↦ (unreachable, rw (down, over) refl, at_once (late down (ground arith)))
        | inr early ↦ elim (Bool-cases (d.cancels attempt)) [
          | inl stop ↦ (
            canceled,
            rw (down, early, stop) refl,
            at_once (interrupted down (ground arith) stop),
          )
          | inr on ↦ (
            o,
            rw (down, early, on) e,
            (
              k,
              omega arith,
              λ j a b. elim (Bool-cases (j == attempt)) [
                | inl q ↦
                    subst (GoesOn d deadline) (sym (ground (arith, ==_iff j attempt)))
                      (record { down = down; early = ground arith; alive = on })
                | inr q ↦ before j (ground (arith, ==_iff j attempt)) b
              ],
              end,
            ),
          )
        ]
      ]
    ]
  where
    at_once : {o : Opened} → Ends d deadline attempt o → Decided d deadline attempt o
    at_once h = (attempt, omega arith, λ j a b. absurd (omega arith), h)

-- The retried connection comes to an end: with the pool of the first attempt that connects, unless an
-- attempt before it failed past the deadline, which is the error, or the context ended after a failure.
-- So no further attempt begins once one has failed past the deadline, however long the attempts take;
-- the wait between two of them takes at least the delay.
pub open_pool-returns :
    (d : Dials) (start : ℕ) (timeout : ℤ)
    → start ≤ d.clock 1
    → ((k : ℕ) → d.clock k + retry_delay ≤ d.clock (suc k))
    → (o : Opened) × (open_pool (suc (connect_timeout timeout / retry_delay + 1)) d start timeout
        ≡ some o)
      × Decided d (start + connect_timeout timeout) 1 o
unfolding open_pool
open_pool-returns d start timeout first ticks =
    open_loop-returns d (start + connect_timeout timeout)
      (connect_timeout timeout / retry_delay + 1) 1 ticks (omega arith)

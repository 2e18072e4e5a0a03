-- ===== src/Fetch/Gate/Pacing.antt =====
-- The spacing of the requests that go through the gate.
use property_search.Prelude.{
  ℕ, ◌+◌, ◌≤◌, ◌<◌, ◌≡◌, refl, Bool, true, false, List, [], ◌∷◌, arith, All, some,
}
use property_search.Fetch.Gate.{Gate, reserve, acquire, release, cool_down}

-- The starts that a sequence of bulk requests is given, by the instants at which they ask.
unfoldable pub starts : Gate → List ℕ → List ℕ
unfolding reserve
starts g [] = []
starts g (now ∷ nows) = let (start, g') = reserve g false now in start ∷ starts g' nows

-- No start lies within the gap after an earlier one.
abbrev pub Spaced : ℕ → List ℕ → Type 0
Spaced gap [] = Unit
Spaced gap (s ∷ ss) = All (λ t. s + gap ≤ t) ss × Spaced gap ss

-- The gate never lets a bulk request start before `next`.
starts-after :
    (g : Gate) (nows : List ℕ) (bound : ℕ) → bound ≤ g.next → All (λ t. bound ≤ t) (starts g nows)
unfolding starts
starts-after g [] bound h = tt
starts-after g (now ∷ nows) bound h =
    (ground arith, starts-after (reserve g false now).1 nows bound (ground arith))

starts-Spaced_go : (g : Gate) (nows : List ℕ) → Spaced g.min_gap (starts g nows)
unfolding starts
starts-Spaced_go g [] = tt
starts-Spaced_go g (now ∷ nows) = (
  starts-after (reserve g false now).1 nows ((reserve g false now).0 + g.min_gap) (ground arith),
  starts-Spaced_go (reserve g false now).1 nows,
)

-- Bulk requests, however they arrive, start at least the minimum gap apart, each of them from all
-- that came before it; and none starts before the instant up to which the gate holds off.
pub starts-Spaced :
    (g : Gate) (nows : List ℕ)
    → Spaced g.min_gap (starts g nows) × All (λ t. g.next ≤ t) (starts g nows)
starts-Spaced g nows = (starts-Spaced_go g nows, starts-after g nows g.next (omega arith))

-- After a cooldown no bulk request starts before the cooldown is over, and a hold-off that was longer
-- stays.
pub cool_down-starts :
    (g : Gate) (now : ℕ) (nows : List ℕ)
    → All (λ t. now + g.cooldown ≤ t) (starts (cool_down g now) nows)
      × (g.next ≤ (cool_down g now).next)
unfolding cool_down
cool_down-starts g now nows =
    (starts-after (cool_down g now) nows (now + g.cooldown) (ground arith), ground arith)

-- A priority request that comes while the gate holds off by more than the gap ends the hold-off: the
-- next bulk request may start one gap after it, before the instant up to which the gate held off.
pub reserve-priority_ends_hold_off :
    (g : Gate) (now : ℕ)
    → now + g.min_gap < g.next
    → let (start, g') = reserve g true now in
      (start ≡ now) × ((reserve g' false (now + g.min_gap)).0 < g.next)
unfolding reserve
reserve-priority_ends_hold_off g now h = (refl, ground arith)

-- An `Acquire` that gets its slot keeps the requests in flight within the capacity, and its `Release`
-- gives the count back.
pub acquire-release :
    (g g' : Gate) (priority : Bool) (now start : ℕ)
    → acquire g priority now ≡ some (start, g')
    → (g'.in_flight ≤ g'.capacity) × (now ≤ start) × ((release g').in_flight ≡ g.in_flight)
unfolding acquire release
acquire-release g g' priority now start h = ground arith

-- ===== src/Fetch/Gate.antt =====
-- gate.go: the gate that paces the requests. An `Acquire` that has its slot reads the clock and moves
-- `next` under the mutex, so acquisitions are a sequence of steps.
pub mod Pacing
use property_search.Prelude.{
  ℕ, suc, Bool, true, false, ◌||◌, ◌+◌, ◌-◌, ltb, leb, if◌then◌else◌, Option, none, some,
}

pub record Gate : Type 0 where
  pub min_gap : ℕ
  pub cooldown : ℕ
  pub next : ℕ
  -- the buffered channel: its capacity, and how many slots are taken
  pub capacity : ℕ
  pub in_flight : ℕ

-- `NewGate`
unfoldable pub new_gate : ℕ → ℕ → ℕ → Gate
new_gate min_gap concurrency cooldown = record {
  min_gap = min_gap;
  cooldown = cooldown;
  next = 0;
  capacity = if ltb concurrency 1 then 1 else concurrency;
  in_flight = 0;
}

-- When a request may start.
unfoldable pub start_at : Gate → Bool → ℕ → ℕ
start_at g priority now = if priority || ltb g.next now then now else g.next

-- The part of `Acquire` under the mutex, at the instant `now`.
unfoldable pub reserve : Gate → Bool → ℕ → ℕ × Gate
unfolding start_at
reserve g priority now =
    let start = start_at g priority now in (start, record g { next = start + g.min_gap })

-- `Acquire` when a slot is free: the start of the request, and the wait until then; `none` blocks.
unfoldable pub acquire : Gate → Bool → ℕ → Option (ℕ × Gate)
unfolding reserve
acquire g priority now =
    if ltb g.in_flight g.capacity
    then (let (start, g') = reserve g priority now in
        some (start, record g' { in_flight = suc g.in_flight }))
    else none

-- `Release`
unfoldable pub release : Gate → Gate
release g = record g { in_flight = g.in_flight - 1 }

-- `Cooldown`, at the instant `now`.
unfoldable pub cool_down : Gate → ℕ → Gate
cool_down g now =
    let until = now + g.cooldown in if ltb g.next until then record g { next = until } else g

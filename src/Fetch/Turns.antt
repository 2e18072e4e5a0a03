-- ===== src/Fetch/Turns.antt =====
-- internal/fetch/gate.go: requests at the gate at once. The steps of a request are its `Acquire` up to
-- the wait, the end of the wait or of its context, and its `Release`.
pub mod Alone
use property_search.Prelude.{ℕ, ◌≤◌, ◌≡◌, Bool, true, false, ◌==◌, some, if◌then◌else◌}
use property_search.Fetch.Gate.{Gate, acquire, release, cool_down}

-- Where a request is: outside, with a slot until its start has come, or on its way.
pub data Turn : Type 0 where
  outside running : Turn
  waiting : ℕ → Turn

abbrev pub has_slot : Turn → Bool
has_slot outside = false
has_slot _ = true

pub record Queue : Type 0 where
  pub gate : Gate
  pub turn : ℕ → Turn

abbrev pub take_turn : (ℕ → Turn) → ℕ → Turn → ℕ → Turn
take_turn f i p j = if j == i then p else f j

pub data Step (q : Queue) : Queue → Type 0 where
  enters :
      (i now start : ℕ) (priority : Bool) (g : Gate)
      → q.turn i ≡ outside
      → acquire q.gate priority now ≡ some (start, g)
      → Step q (record { gate = g; turn = take_turn q.turn i (waiting start) })
  starts :
      (i now start : ℕ)
      → q.turn i ≡ waiting start
      → start ≤ now
      → Step q (record q { turn = take_turn q.turn i running })
  -- The context ends during the wait: the slot is given back.
  interrupts :
      (i start : ℕ)
      → q.turn i ≡ waiting start
      → Step q (record { gate = release q.gate; turn = take_turn q.turn i outside })
  releases :
      (i : ℕ)
      → q.turn i ≡ running
      → Step q (record { gate = release q.gate; turn = take_turn q.turn i outside })
  cools : (now : ℕ) → Step q (record q { gate = cool_down q.gate now })

pub data Reach (q : Queue) : Queue → Type 0 where
  here : Reach q q
  next : {r t : Queue} → Reach q r → Step r t → Reach q t

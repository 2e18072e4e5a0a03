-- ===== src/Database/Open.antt =====
-- internal/db/db.go: the connection at the start, retried until a deadline.
pub mod Returns
use property_search.Prelude.{
  ℕ, zero, suc, ℤ, pos, negsuc, ◌+◌, ◌*◌, Bool, Option, none, some, ltb, if◌then◌else◌,
}

-- `retryDelay`, `defaultConnectTimeout`, in nanoseconds.
abbrev pub retry_delay : ℕ
retry_delay = 500000000

abbrev pub default_connect_timeout : ℕ
default_connect_timeout = 30 * 1000000000

-- What the attempts meet: whether pgxpool connects and answers the ping, what the clock shows after
-- an attempt, and whether the context ends during the wait that follows.
pub record Dials : Type 0 where
  pub connects : ℕ → Bool
  pub clock : ℕ → ℕ
  pub cancels : ℕ → Bool

-- The pool of an attempt, or the error.
pub data Opened : Type 0 where
  pool : ℕ → Opened
  unreachable canceled : Opened

unfoldable pub open_loop : Dials → ℕ → ℕ → ℕ → Option Opened
open_loop d deadline zero attempt = none
open_loop d deadline (suc fuel) attempt =
    let retried = open_loop d deadline fuel (suc attempt) in
    if d.connects attempt
    then some (pool attempt)
    else if ltb deadline (d.clock attempt)
    then some unreachable
    else if d.cancels attempt
    then some canceled
    else retried

abbrev pub connect_timeout : ℤ → ℕ
connect_timeout (pos zero) = default_connect_timeout
connect_timeout (pos (suc n)) = suc n
connect_timeout (negsuc n) = default_connect_timeout

-- `Open`, called at the instant `start`.
unfoldable pub open_pool : ℕ → Dials → ℕ → ℤ → Option Opened
unfolding open_loop
open_pool fuel d start timeout = open_loop d (start + connect_timeout timeout) fuel 1

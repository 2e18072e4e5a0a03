-- ===== src/Fetch/Client.antt =====
-- `Client.FetchWith`: one attempt through FlareSolverr if it is configured, then the TLS attempts with
-- backoff. What each attempt answers, and whether the context ends during a backoff, is given.
pub mod Retries
use Prim.Native.Nat.{min}
use property_search.Prelude.{
  ℕ, zero, suc, Text, Bool, true, false, not, ◌&&◌, ◌+◌, ◌-◌, ◌*◌, ◌^◌, ltb, leb, List, [], ◌∷◌,
  ◌++◌, Option, none, some, if◌then◌else◌,
}
use property_search.Fetch.Classify.{ErrorKind, blocked}
use property_search.Fetch.Gate.{Gate, cool_down}

-- What one attempt came to; a success carries its status.
pub data Attempt : Type 0 where
  success : ℕ → Attempt
  failure : ErrorKind → Attempt

pub record Config : Type 0 where
  pub flaresolverr : Bool
  pub fetch_retries : ℕ

pub record Options : Type 0 where
  pub priority : Bool
  pub no_retries : Bool

-- How `FetchWith` ended, over a gate that may have been cooled down, after so many TLS attempts.
pub data Outcome : Type 0 where
  fetched : ℕ → Outcome
  stopped : ErrorKind → Outcome
  exhausted : ErrorKind → Outcome
  canceled : Outcome

pub record Fetched : Type 0 where
  pub outcome : Outcome
  pub tls_attempts : ℕ
  pub gate : Gate

-- What the outside does: the answers of FlareSolverr and of the TLS attempts by number, from 1,
-- whether the context ends in the backoff before an attempt, and the clock when a challenge is met.
pub record Site : Type 0 where
  pub flare : Attempt
  pub tls : ℕ → Attempt
  pub ends_before : ℕ → Bool
  pub clock : ℕ

abbrev is_blocked : ErrorKind → Bool
is_blocked blocked = true
is_blocked _ = false

-- `holdOffOnBlocked`: the gate after it, when the error is a challenge.
unfoldable pub hold_off : Bool → Gate → ℕ → Gate
hold_off gated g now = if gated then cool_down g now else g

-- `maxAttempts`
unfoldable pub max_attempts : Config → Options → ℕ
max_attempts c o = if o.no_retries then 1 else c.fetch_retries + 1

module _ (gated : Bool) (s : Site) (g : Gate) where
  -- An attempt that failed: a challenge stops the loop.
  abbrev after_attempt : Fetched → ℕ → Attempt → Fetched
  after_attempt rest n (success status) = record {
    outcome = fetched status;
    tls_attempts = n;
    gate = g;
  }
  after_attempt rest n (failure kind) =
      if is_blocked kind
      then record { outcome = stopped kind; tls_attempts = n; gate = hold_off gated g s.clock }
      else rest

  -- `lastErr` when the loop has run out.
  abbrev give_up : ℕ → Attempt → Fetched
  give_up n (success status) = record { outcome = fetched status; tls_attempts = n; gate = g }
  give_up n (failure kind) = record { outcome = exhausted kind; tls_attempts = n; gate = g }

  -- The loop from attempt number `n` on, with `left` more attempts behind it.
  unfoldable pub tls_loop : ℕ → ℕ → Fetched
  unfolding hold_off
  tls_loop zero n =
      if ltb 1 n && s.ends_before n
      then record { outcome = canceled; tls_attempts = n - 1; gate = g }
      else after_attempt (give_up n (s.tls n)) n (s.tls n)
  tls_loop (suc left) n =
      let rest = tls_loop left (n + 1) in
      if ltb 1 n && s.ends_before n
      then record { outcome = canceled; tls_attempts = n - 1; gate = g }
      else after_attempt rest n (s.tls n)

  abbrev pub after_flare : Fetched → Attempt → Fetched
  after_flare rest (success status) = record {
    outcome = fetched status;
    tls_attempts = 0;
    gate = g;
  }
  after_flare rest (failure kind) =
      if is_blocked kind
      then record { outcome = stopped kind; tls_attempts = 0; gate = hold_off gated g s.clock }
      else rest

  -- `FetchWith`, once the gate has let it in.
  unfoldable pub fetch_with : Config → Options → Fetched
  unfolding tls_loop max_attempts
  fetch_with c o =
      let tls = tls_loop (max_attempts c o - 1) 1 in
      if c.flaresolverr then after_flare tls s.flare else tls

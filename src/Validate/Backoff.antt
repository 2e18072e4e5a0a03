-- ===== src/Validate/Backoff.antt =====
-- The delays between the checks of a search.
use Prim.Native.Nat.{min}
use property_search.Prelude.{ℕ, zero, suc, ◌*◌, ◌^◌, ◌≤◌, ◌≡◌, arith}
use property_search.Validate.{backoff_seconds}

pow-pos : (n : ℕ) → 1 ≤ 2 ^ n
pow-pos zero = omega arith
pow-pos (suc n) = omega (arith, pow-pos n)

pow-suc : (n : ℕ) → 2 ^ suc n ≡ 2 * 2 ^ n
pow-suc n = omega arith

-- The wait before the next check is at least a minute and at most a day, it doubles with each attempt
-- until it reaches the day, and so it never gets shorter.
pub backoff_seconds-bounds :
    (attempt : ℕ)
    → (60 ≤ backoff_seconds attempt)
      × (backoff_seconds attempt ≤ 86400)
      × (backoff_seconds (suc attempt) ≡ min (2 * backoff_seconds attempt) 86400)
      × (backoff_seconds attempt ≤ backoff_seconds (suc attempt))
unfolding backoff_seconds
backoff_seconds-bounds attempt = (
  omega (arith, pow-pos attempt),
  omega arith,
  omega (arith, pow-suc attempt),
  omega (arith, pow-suc attempt),
)

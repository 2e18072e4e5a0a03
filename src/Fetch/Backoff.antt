-- ===== src/Fetch/Backoff.antt =====
-- internal/fetch/fetch.go: `backoff`, the delay before an attempt, in int64 nanoseconds.
pub mod Overflow
use property_search.Prelude.{ℕ, ℤ, pos, negsuc, ◌+◌, ◌-◌, ◌*◌, ◌%◌, ◌^◌, ltb, leb, if◌then◌else◌}

-- A shift and a product wrap around modulo 2 ^ 64, and are read as signed.
abbrev pub signed : ℕ → ℤ
signed n = if ltb n (2 ^ 63) then pos n else negsuc (2 ^ 64 - 1 - n)

-- `1 << (attempt - 1)` seconds
abbrev pub shifted_seconds : ℕ → ℤ
shifted_seconds attempt = signed (2 ^ (attempt - 1) % 2 ^ 64 * 1000000000 % 2 ^ 64)

abbrev pub thirty_seconds : ℕ
thirty_seconds = 30 * 1000000000

abbrev capped : ℤ → ℤ
capped (pos n) = pos (if ltb thirty_seconds n then thirty_seconds else n)
capped (negsuc n) = negsuc n

unfoldable pub backoff_base : ℕ → ℤ
backoff_base attempt = capped (shifted_seconds attempt)

-- The draw adds something between zero and the base, whose sign it has.
abbrev jittered : ℕ → ℤ → ℤ
jittered jitter (pos n) = pos (n + jitter)
jittered jitter (negsuc n) = negsuc (n + jitter)

unfoldable pub backoff : ℕ → ℕ → ℤ
unfolding backoff_base
backoff attempt jitter = jittered jitter (backoff_base attempt)

-- ===== src/Fetch/Backoff/Overflow.antt =====
-- internal/fetch/fetch.go: the attempts whose delay is the one that is meant, and those past them.
use Prim.Native.Nat.{min}
use property_search.Prelude.{
  ℕ, ℤ, zero, suc, pos, negsuc, ◌+◌, ◌-◌, ◌*◌, ◌%◌, ◌^◌, ◌≤◌, ◌<◌, ◌≡◌, refl, arith, Bool, true,
  false, ◌&&◌, ◌==◌, ==_iff, Bool-cases, inl, inr,
}
use native.Mathlib.Numerals.{unary_clauses}
use property_search.Fetch.Backoff.{backoff_base}

doubled : (k : ℕ) → 2 ^ suc k ≡ 2 ^ k * 2
doubled k = simp unary_clauses (omega arith)

shift_out : (k : ℕ) → 2 ^ (k + 64) % 2 ^ 64 ≡ 0
shift_out zero = refl
shift_out (suc k) =
    let next : suc k + 64 ≡ suc (k + 64) = omega arith in
    rw (next, doubled (k + 64)) (omega (arith, shift_out k))

-- From attempt 65 on the shifted bit has left the word, and the delay before the attempt is zero.
pub backoff_base-vanishes : (attempt : ℕ) → 65 ≤ attempt → backoff_base attempt ≡ pos 0
unfolding backoff_base
backoff_base-vanishes attempt h =
    let k : ℕ = attempt - 65 in
    let same : attempt - 1 ≡ k + 64 = omega arith in rw (same, shift_out k) refl

-- A test that holds of every number below a bound.
all_below : (ℕ → Bool) → ℕ → Bool
all_below p zero = true
all_below p (suc n) = p n && all_below p n

all_below-at : (p : ℕ → Bool) (n k : ℕ) → all_below p n ≡ true → k < n → p k ≡ true
unfolding all_below
all_below-at p zero k h lt = ground arith
all_below-at p (suc n) k h lt = elim (Bool-cases (k == n)) [
  | inl e ↦ ground (arith, e, ==_iff k n)
  | inr ne ↦ ground (arith, ne, all_below-at p n k)
]

is_second : ℤ → ℕ → Bool
is_second (pos n) k = n == min (2 ^ (k - 1)) 30 * 1000000000
is_second (negsuc n) k = false

-- Up to attempt 34 the base is the power of two in seconds, and thirty seconds at most.
pub backoff_base_exact :
    (attempt : ℕ)
    → attempt < 35
    → backoff_base attempt ≡ pos (min (2 ^ (attempt - 1)) 30 * 1000000000)
unfolding all_below is_second
backoff_base_exact attempt h =
    matched (backoff_base attempt)
      (all_below-at (λ k. is_second (backoff_base k) k) 35 attempt (unfold backoff_base in refl) h)
  where
    matched :
        (b : ℤ) → is_second b attempt ≡ true → b ≡ pos (min (2 ^ (attempt - 1)) 30 * 1000000000)
    matched (pos n) e = ground arith
    matched (negsuc n) e = ground arith

-- ===== src/Tests/Fetched.antt =====
-- The theorems about the gate and the fetches at concrete runs.
use property_search.Prelude.{
  ℕ, zero, suc, ◌+◌, ◌≤◌, ◌<◌, ◌≡◌, refl, true, false, inl, [], ◌∷◌, arith, All, ◌==◌,
  if◌then◌else◌,
}
use property_search.Fetch.Gate.{Gate, reserve}
use property_search.Fetch.{
  transport, blocked, Attempt, success, failure, Config, Options, fetched, Site, fetch_with,
  max_attempts,
}
use property_search.Fetch.Gate.Pacing.{
  starts, Spaced, starts-Spaced, reserve-priority_ends_hold_off,
}
use property_search.Fetch.Client.Retries.{
  may_retry, Stopped, by_tls, fetch_with-Stopped, fetch_with-recovers,
}

abbrev gate : Gate
gate = record { min_gap = 10; cooldown = 300; next = 50; capacity = 2; in_flight = 1 }

starts-Spaced_example :
    Spaced 10 (starts gate (0 ∷ 1 ∷ 90 ∷ [])) × All (λ t. 50 ≤ t) (starts gate (0 ∷ 1 ∷ 90 ∷ []))
starts-Spaced_example = starts-Spaced gate (0 ∷ 1 ∷ 90 ∷ [])

reserve-priority_ends_hold_off_example :
    let (start, g) = reserve gate true 20 in (start ≡ 20) × ((reserve g false 30).0 < 50)
unfolding reserve
reserve-priority_ends_hold_off_example = reserve-priority_ends_hold_off gate 20 (omega arith)

abbrev two : Config
two = record { flaresolverr = false; fetch_retries = 2 }

abbrev plain : Options
plain = record { priority = false; no_retries = false }

-- The first attempt fails on the way, the second one is answered.
abbrev second_try : ℕ → Attempt
second_try n = if n == 2 then success 200 else failure transport

abbrev flaky : Site
flaky = record { flare = failure transport; tls = second_try; ends_before = λ n. false; clock = 70 }

-- A challenge at the second attempt.
abbrev challenge : ℕ → Attempt
challenge n = if n == 2 then failure blocked else failure transport

abbrev guarded : Site
guarded = record {
  flare = failure transport;
  tls = challenge;
  ends_before = λ n. false;
  clock = 70;
}

fetch_with-Stopped_example : Stopped true guarded gate 2 (fetch_with true guarded gate two plain)
unfolding max_attempts
fetch_with-Stopped_example =
    fetch_with-Stopped true guarded gate two plain 2
      (by_tls 1 (inl refl) (omega arith) first (λ i. refl) refl)
  where
    first : (i : ℕ) → i < 1 → may_retry (guarded.tls (1 + i)) ≡ true
    first zero h = refl
    first (suc i) h = ground arith

fetch_with-recovers_example : (fetch_with true flaky gate two plain).outcome ≡ fetched 200
unfolding max_attempts
fetch_with-recovers_example =
    fetch_with-recovers true flaky gate two plain 1 200 refl (omega arith) refl first (λ i. refl)
  where
    first : (i : ℕ) → i < 1 → may_retry (flaky.tls (1 + i)) ≡ true
    first zero h = refl
    first (suc i) h = ground arith

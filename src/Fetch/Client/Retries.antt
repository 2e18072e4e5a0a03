-- ===== src/Fetch/Client/Retries.antt =====
-- How many attempts a fetch makes, and what a challenge does to it.
use mathlib.Core.Path.{subst}
use property_search.Prelude.{
  sym, ◌∙◌, Bool-cases, if◌then◌else◌, ℕ, zero, suc, ◌+◌, ◌-◌, ◌≤◌, ◌<◌, ◌≡◌, refl, Bool, true,
  false, arith, ◌⊎◌, inl, inr,
}
use property_search.Fetch.Gate.{Gate, cool_down}
use property_search.Fetch.Classify.{blocked}
use property_search.Fetch.Client.{
  Attempt, success, failure, Config, Options, Fetched, fetched, stopped, Site, hold_off, tls_loop,
  fetch_with, max_attempts, after_flare,
}

module _ (gated : Bool) (s : Site) (g : Gate) where
  tls_loop-attempts : (left n : ℕ) → (tls_loop gated s g left n).tls_attempts ≤ left + n
  unfolding tls_loop
  tls_loop-attempts zero n = ground arith
  tls_loop-attempts (suc left) n = ground (arith, tls_loop-attempts left (n + 1))

  -- A fetch never makes more TLS attempts than it is configured for, and only one without retries.
  pub fetch_with-attempts :
      (c : Config) (o : Options) → (fetch_with gated s g c o).tls_attempts ≤ max_attempts c o
  unfolding fetch_with max_attempts
  fetch_with-attempts c o = ground (arith, tls_loop-attempts (max_attempts c o - 1) 1)

-- An attempt that failed, but not by a challenge.
abbrev pub may_retry : Attempt → Bool
may_retry (success status) = false
may_retry (failure blocked) = false
may_retry (failure _) = true

module _ (gated : Bool) (s : Site) (g : Gate) where
  shift : (n i : ℕ) → n + 1 + i ≡ n + suc i
  shift n i = omega arith

  tls_loop-recovers :
      (k left n status : ℕ)
      → k ≤ left
      → s.tls (n + k) ≡ success status
      → ((i : ℕ) → i < k → may_retry (s.tls (n + i)) ≡ true)
      → ((i : ℕ) → s.ends_before i ≡ false)
      → (tls_loop gated s g left n).outcome ≡ fetched status
  unfolding tls_loop
  tls_loop-recovers zero zero n status le hit soft lives = ground (arith, lives n)
  tls_loop-recovers zero (suc left) n status le hit soft lives = ground (arith, lives n)
  tls_loop-recovers (suc k) zero n status le hit soft lives = ground arith
  tls_loop-recovers (suc k) (suc left) n status le hit soft lives = ground (
    arith,
    lives n,
    soft 0 (omega arith),
    tls_loop-recovers k left (n + 1) status (omega arith) (rw (shift n k) hit)
        (λ i lt. rw (shift n i) (soft (suc i) (omega arith))) lives,
  )

  -- Without FlareSolverr, an attempt that succeeds after failures that were no challenge, within the
  -- attempts configured and with the context alive, is what the fetch returns: transient failures are
  -- retried until one attempt succeeds.
  pub fetch_with-recovers :
      (c : Config) (o : Options) (k status : ℕ)
      → c.flaresolverr ≡ false
      → k < max_attempts c o
      → s.tls (1 + k) ≡ success status
      → ((i : ℕ) → i < k → may_retry (s.tls (1 + i)) ≡ true)
      → ((i : ℕ) → s.ends_before i ≡ false)
      → (fetch_with gated s g c o).outcome ≡ fetched status
  unfolding fetch_with
  fetch_with-recovers c o k status direct le hit soft lives =
      rw direct (tls_loop-recovers k (max_attempts c o - 1) 1 status (omega arith) hit soft lives)

-- A fetch meets a challenge after so many TLS attempts: at once from FlareSolverr, or at a TLS attempt
-- that it reaches, every answer before that one being a failure that is no challenge.
pub data Challenged (s : Site) (c : Config) (o : Options) : ℕ → Type 0 where
  by_flaresolverr : c.flaresolverr ≡ true → s.flare ≡ failure blocked → Challenged s c o 0
  by_tls :
      (k : ℕ)
      → (c.flaresolverr ≡ false) ⊎ (may_retry s.flare ≡ true)
      → k < max_attempts c o
      → ((i : ℕ) → i < k → may_retry (s.tls (1 + i)) ≡ true)
      → ((i : ℕ) → s.ends_before i ≡ false)
      → s.tls (1 + k) ≡ failure blocked
      → Challenged s c o (1 + k)

module _ (gated : Bool) (s : Site) (g : Gate) where
  -- A fetch that was stopped by a challenge after so many TLS attempts.
  pub record Stopped (n : ℕ) (r : Fetched) : Type 0 where
    pub outcome : r.outcome ≡ stopped blocked
    pub attempts : r.tls_attempts ≡ n
    pub held_off : gated ≡ true → s.clock + g.cooldown ≤ r.gate.next

  stop : ℕ → Fetched
  stop n = record { outcome = stopped blocked; tls_attempts = n; gate = hold_off gated g s.clock }

  stop-Stopped : (n : ℕ) → Stopped n (stop n)
  unfolding stop hold_off cool_down
  stop-Stopped n = record { outcome = refl; attempts = refl; held_off = λ h. ground (arith, h) }

  tls_loop-stop :
      (k left n : ℕ)
      → k ≤ left
      → s.tls (n + k) ≡ failure blocked
      → ((i : ℕ) → i < k → may_retry (s.tls (n + i)) ≡ true)
      → ((i : ℕ) → s.ends_before i ≡ false)
      → tls_loop gated s g left n ≡ stop (n + k)
  unfolding tls_loop stop
  tls_loop-stop zero zero n le hit soft lives = ground (arith, lives n)
  tls_loop-stop zero (suc left) n le hit soft lives = ground (arith, lives n)
  tls_loop-stop (suc k) zero n le hit soft lives = ground arith
  tls_loop-stop (suc k) (suc left) n le hit soft lives = ground (
    arith,
    lives n,
    soft 0 (omega arith),
    shift gated s g n k,
    tls_loop-stop k left (n + 1) (omega arith) (rw (shift gated s g n k) hit)
        (λ i lt. rw (shift gated s g n i) (soft (suc i) (omega arith))) lives,
  )

  after_flare-blocked :
      (rest : Fetched) (a : Attempt) → a ≡ failure blocked → after_flare gated s g rest a ≡ stop 0
  unfolding stop
  after_flare-blocked rest a h = rw h refl

  after_flare-soft :
      (rest : Fetched) (a : Attempt) → may_retry a ≡ true → after_flare gated s g rest a ≡ rest
  after_flare-soft rest a h = ground (arith, h)

  let_through :
      (c : Config) (a : Attempt) (rest : Fetched)
      → (c.flaresolverr ≡ false) ⊎ (may_retry a ≡ true)
      → (if c.flaresolverr then after_flare gated s g rest a else rest) ≡ rest
  let_through c a rest (inl off) = rw off refl
  let_through c a rest (inr soft) = elim (Bool-cases c.flaresolverr) [
    | inl on ↦ rw on (after_flare-soft rest a soft)
    | inr off ↦ rw off refl
  ]

  -- A challenge, from FlareSolverr or at any TLS attempt that is reached, stops the fetch: no attempt is
  -- made after it, though more are configured, and a gate that the fetch came through holds off for at
  -- least the cooldown from then on.
  pub fetch_with-Stopped :
      (c : Config) (o : Options) (n : ℕ) → Challenged s c o n → Stopped n (fetch_with gated s g c o)
  unfolding fetch_with stop
  fetch_with-Stopped c o _ (by_flaresolverr on hit) =
      rw on (subst (Stopped 0) (sym (after_flare-blocked _ s.flare hit)) (stop-Stopped 0))
  fetch_with-Stopped c o _ (by_tls k lets lt soft lives hit) =
      let looped = tls_loop-stop k (max_attempts c o - 1) 1 (omega arith) hit soft lives in
      subst (Stopped (1 + k)) (sym (let_through c s.flare _ lets ∙ looped)) (stop-Stopped (1 + k))

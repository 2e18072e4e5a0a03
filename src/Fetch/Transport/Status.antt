-- ===== src/Fetch/Transport/Status.antt =====
-- internal/fetch: what a fetch over the two transports returns.
use property_search.Prelude.{
  ℕ, zero, suc, ◌+◌, ◌-◌, ◌≡◌, Bool, true, false, refl, arith, any, contains, to_lower, Casing,
  some, codes, text_eq,
}
use property_search.Config.{Config}
use property_search.Fetch.Gate.{Gate}
use property_search.Fetch.Classify.{network_markers, classify_flaresolverr_failure}
use property_search.Fetch.Client
use property_search.Fetch.Client.{
  Options, Site, Attempt, success, fetched, tls_loop, fetch_with, max_attempts, hold_off,
}
use property_search.Fetch.Transport.{
  TlsExchange, FlareExchange, FsResponse, fetch_via_tls, fetch_via_flaresolverr, attempt_of,
}

-- The exchanges of a fetch, by attempt, as the loop meets them.
abbrev pub site_of : Casing → Config → FlareExchange → (ℕ → TlsExchange) → (ℕ → Bool) → ℕ → Site
site_of u c flare tls ends clock = record {
  flare = attempt_of (fetch_via_flaresolverr u flare);
  tls = λ n. attempt_of (fetch_via_tls c (tls n));
  ends_before = ends;
  clock = clock;
}

fetch_via_tls_ok :
    (c : Config) (x : TlsExchange) (status : ℕ)
    → attempt_of (fetch_via_tls c x) ≡ success status
    → status ≡ 200
unfolding fetch_via_tls
fetch_via_tls_ok c x status e = ground arith

fetch_via_flaresolverr_ok :
    (u : Casing) (x : FlareExchange) (status : ℕ)
    → attempt_of (fetch_via_flaresolverr u x) ≡ success status
    → status ≡ 200
unfolding fetch_via_flaresolverr
fetch_via_flaresolverr_ok u x status e = ground arith

module _ (gated : Bool) (s : Site) (g : Gate) where
  tls_loop_ok :
      (left n status : ℕ)
      → ((k code : ℕ) → s.tls k ≡ success code → code ≡ 200)
      → (tls_loop gated s g left n).outcome ≡ fetched status
      → status ≡ 200
  unfolding tls_loop hold_off
  tls_loop_ok zero n status ok e = ground (arith, ok n status)
  tls_loop_ok (suc left) n status ok e =
      ground (arith, ok n status, tls_loop_ok left (n + 1) status ok)

  fetch_with_ok :
      (c : Client.Config) (o : Options) (status : ℕ)
      → ((k code : ℕ) → s.tls k ≡ success code → code ≡ 200)
      → (s.flare ≡ success status → status ≡ 200)
      → (fetch_with gated s g c o).outcome ≡ fetched status
      → status ≡ 200
  unfolding fetch_with hold_off
  fetch_with_ok c o status ok flare_ok e =
      ground (arith, flare_ok, tls_loop_ok (max_attempts c o - 1) 1 status ok)

-- A fetch returns only pages that were answered with status 200, over either transport, whatever the
-- exchanges come to and however many attempts are made.
pub fetch_with_status :
    (u : Casing) (c : Config) (flare : FlareExchange) (tls : ℕ → TlsExchange) (ends : ℕ → Bool)
    (clock : ℕ) (gated : Bool) (g : Gate) (k : Client.Config) (o : Options) (status : ℕ)
    → (fetch_with gated (site_of u c flare tls ends clock) g k o).outcome ≡ fetched status
    → status ≡ 200
fetch_with_status u c flare tls ends clock gated g k o status e =
    fetch_with_ok gated (site_of u c flare tls ends clock) g k o status
      (λ n code q. fetch_via_tls_ok c (tls n) code q) (fetch_via_flaresolverr_ok u flare status) e

-- Where FlareSolverr reports a failure of the network below it, the fetch goes on as one without
-- FlareSolverr does, and the gate is not held off for that.
pub fetch_with-network_failure :
    (u : Casing) (c : Config) (tls : ℕ → TlsExchange) (ends : ℕ → Bool) (clock : ℕ) (gated : Bool)
    (g : Gate) (retries : ℕ) (o : Options) (code : ℕ) (fs : FsResponse)
    → text_eq fs.status (codes "ok") ≡ false
    → any (contains (to_lower u fs.message)) network_markers ≡ true
    → fetch_with gated
        (site_of u c (FlareExchange.answered code (some fs)) tls ends clock)
        g
        (record { flaresolverr = true; fetch_retries = retries })
        o
      ≡ fetch_with gated
          (site_of u c (FlareExchange.answered code (some fs)) tls ends clock)
          g
          (record { flaresolverr = false; fetch_retries = retries })
          o
unfolding fetch_with fetch_via_flaresolverr classify_flaresolverr_failure max_attempts
fetch_with-network_failure u c tls ends clock gated g retries o code fs failed named =
    rw (failed, named) refl

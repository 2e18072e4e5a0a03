-- ===== src/Tests/Transported.antt =====
-- The theorems about the two transports and the delays at concrete exchanges.
use property_search.Prelude.{
  ℕ, ◌+◌, ◌*◌, ◌≤◌, ◌≡◌, refl, true, false, [], some, pos, arith, codes, ascii_casing, text_eq,
  contains, ◌==◌, if◌then◌else◌, has_prefix, to_lower,
}
use property_search.Fetch
use property_search.Fetch.{
  Answer, Options, fetched, fetch_with, TlsExchange, FlareExchange, FsResponse, backoff_base,
  max_attempts, fetch_via_tls, fetch_via_flaresolverr,
}
use property_search.Fetch.Gate.{Gate}
use property_search.Fetch.Backoff.Overflow.{backoff_base-vanishes}
use property_search.Fetch.Transport.Status.{fetch_with_status}
use property_search.Fetch.Transport.{new_client}
use property_search.Fetch.Gate.{acquire}
use property_search.Fetch.Turns.{Queue, outside, Reach, here, next, enters, starts, cools}
use property_search.Fetch.Turns.Alone.{Reach-one_request}
use property_search.Tests.Configured.{settings}

abbrev gate : Gate
gate = record { min_gap = 10; cooldown = 300; next = 50; capacity = 1; in_flight = 1 }

abbrev plain : Options
plain = record { priority = false; no_retries = false }

abbrev page : Answer
page = record { cf_mitigated = []; cf_chl_bypass = []; body = codes "<html>"; body_bytes = 6 }

abbrev unreached : FsResponse
unreached = record {
  status = codes "error";
  message = codes "Error solving the challenge. Message: net::ERR_TIMED_OUT";
  solution_status = 0;
  solution = page;
}

abbrev flare : FlareExchange
flare = FlareExchange.answered 500 (some unreached)

-- The connection fails once, then the page is served.
abbrev tls : ℕ → TlsExchange
tls n = if n == 1 then TlsExchange.no_answer else TlsExchange.answered 200 page

abbrev retried : Fetch.Config
retried = record { flaresolverr = true; fetch_retries = 3 }

fetch_with_status_example : let served : ℕ = 200 in served ≡ 200
unfolding fetch_with max_attempts fetch_via_tls fetch_via_flaresolverr text_eq contains has_prefix
    to_lower
fetch_with_status_example =
    fetch_with_status ascii_casing settings flare tls (λ n. false) 70 true gate retried plain 200
      refl

backoff_base-vanishes_example : backoff_base 70 ≡ pos 0
backoff_base-vanishes_example = backoff_base-vanishes 70 (omega arith)

abbrev slots : ℕ → ℕ → Gate
slots opens taken = record {
  min_gap = 60 * 1000000000;
  cooldown = 300 * 1000000000;
  next = opens;
  capacity = 1;
  in_flight = taken;
}

new_client-slots : slots 0 0 ≡ new_client settings
unfolding new_client
new_client-slots = refl

enters_first : acquire (slots 0 0) true 100 ≡ some (100, slots (100 + 60 * 1000000000) 1)
unfolding acquire
enters_first = refl

abbrev fresh : Queue
fresh = record { gate = slots 0 0; turn = λ i. outside }

hundred : 100 ≤ 130
hundred = omega arith

-- The first request is let in and starts; the gate is held off meanwhile.
abbrev busy : (r : Queue) × Reach fresh r
busy = (
  _,
  next
      (next (next here (enters 4 100 100 true (slots (100 + 60 * 1000000000) 1) refl enters_first))
        (cools 120))
      (starts 4 130 100 refl hundred),
)

Reach-one_request_example : let served : ℕ = 4 in served ≡ 4
Reach-one_request_example =
    Reach-one_request settings fresh busy.0 refl new_client-slots (λ i. refl) busy.1 4 4 refl refl

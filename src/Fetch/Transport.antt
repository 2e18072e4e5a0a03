-- ===== src/Fetch/Transport.antt =====
-- internal/fetch/flaresolverr.go and tls.go: one exchange over either transport, and `New`. How far an
-- exchange gets, and what encoding/json decodes of an answer, is given.
pub mod Status
use property_search.Prelude.{
  ℕ, ℤ, pos, negsuc, ◌+◌, ◌*◌, ◌/◌, ltb, Text, codes, is_empty, text_eq, Bool, true, false, not, [],
  ◌==◌, Option, none, some, if◌then◌else◌, Casing,
}
use property_search.Config.{Config}
use property_search.Fetch.Gate.{Gate, new_gate}
use property_search.Fetch.Classify.{
  ErrorKind, transport, blocked, http_status, Answer, classify_status,
  classify_flaresolverr_failure,
}
use property_search.Fetch.Client.{Attempt, success, failure}

-- `Error`: `status` is 0 where no answer came.
pub record FetchError : Type 0 where
  pub kind : ErrorKind
  pub status : ℕ
  pub mode : Text

-- `Result`
pub record FetchResult : Type 0 where
  pub body : Text
  pub mode : Text
  pub status : ℕ

pub data Transported : Type 0 where
  delivered : FetchResult → Transported
  lost : FetchError → Transported

abbrev lost_as : ErrorKind → ℕ → Text → Transported
lost_as kind status mode = lost (record { kind = kind; status = status; mode = mode })

abbrev delivered_as : Answer → ℕ → Text → Transported
delivered_as a status mode = delivered (record { body = a.body; mode = mode; status = status })

-- How far a TLS request gets: the client, the request, the connection or the body fails, or there is
-- a status with an answer.
pub data TlsExchange : Type 0 where
  no_client bad_request no_answer cut_short : TlsExchange
  answered : ℕ → Answer → TlsExchange

abbrev pub tls_mode : Config → Text
tls_mode c = if is_empty c.zonaprop_proxy then codes "tls" else codes "tls-proxy"

-- `fetchViaTLS`
unfoldable pub fetch_via_tls : Config → TlsExchange → Transported
unfolding classify_status
fetch_via_tls c (answered status a) =
    if status == 200
    then delivered_as a status (tls_mode c)
    else lost_as (classify_status a) status (tls_mode c)
fetch_via_tls c no_client = lost_as transport 0 (tls_mode c)
fetch_via_tls c bad_request = lost_as transport 0 (tls_mode c)
fetch_via_tls c no_answer = lost_as transport 0 (tls_mode c)
fetch_via_tls c cut_short = lost_as transport 0 (tls_mode c)

-- `fsResponse`, whose solution has a body and no headers.
pub record FsResponse : Type 0 where
  pub status : Text
  pub message : Text
  pub solution_status : ℕ
  pub solution : Answer

-- How far a request to FlareSolverr gets; an answer has the status of the HTTP response, and what the
-- body decodes to.
pub data FlareExchange : Type 0 where
  not_marshalled bad_request no_answer cut_short : FlareExchange
  answered : ℕ → Option FsResponse → FlareExchange

abbrev flare_mode : Text
flare_mode = codes "flaresolverr"

abbrev body_only : Answer → Answer
body_only a = record a { cf_mitigated = []; cf_chl_bypass = [] }

abbrev solved : Casing → ℕ → Option FsResponse → Transported
unfolding classify_status classify_flaresolverr_failure
solved u code none = lost_as http_status code flare_mode
solved u code (some fs) =
    if not (text_eq fs.status (codes "ok"))
    then lost_as (classify_flaresolverr_failure u fs.message) code flare_mode
    else if not (fs.solution_status == 200)
    then lost_as (classify_status (body_only fs.solution)) fs.solution_status flare_mode
    else delivered_as fs.solution fs.solution_status flare_mode

-- `fetchViaFlareSolverr`
unfoldable pub fetch_via_flaresolverr : Casing → FlareExchange → Transported
unfolding solved
fetch_via_flaresolverr u (answered code fs) = solved u code fs
fetch_via_flaresolverr u not_marshalled = lost_as transport 0 flare_mode
fetch_via_flaresolverr u bad_request = lost_as transport 0 flare_mode
fetch_via_flaresolverr u no_answer = lost_as transport 0 flare_mode
fetch_via_flaresolverr u cut_short = lost_as transport 0 flare_mode

-- What the loop of `FetchWith` reads of an exchange; `KindOf` finds the kind of every error here.
abbrev pub attempt_of : Transported → Attempt
attempt_of (delivered r) = success r.status
attempt_of (lost e) = failure e.kind

-- `ErrorKind.String`
abbrev pub kind_name : ErrorKind → Text
kind_name transport = codes "transport"
kind_name blocked = codes "blocked"
kind_name http_status = codes "http-status"

abbrev magnitude : ℤ → ℕ
magnitude (pos n) = n
magnitude (negsuc n) = 0

-- In milliseconds and nanoseconds: the time the browser is given, and the time the client waits.
abbrev pub browser_timeout_ms : Config → ℕ
browser_timeout_ms c = magnitude c.max_browser_timeout / 1000000

abbrev pub flare_client_timeout : Config → ℕ
flare_client_timeout c = magnitude c.max_browser_timeout + 30 * 1000000000

abbrev pub default_min_gap : ℕ
default_min_gap = 60 * 1000000000

abbrev pub default_cooldown : ℕ
default_cooldown = 5 * (60 * 1000000000)

abbrev min_gap_of : ℕ → ℕ
min_gap_of gap = if ltb 0 gap then gap else default_min_gap

-- `New`: the gate of a client.
unfoldable pub new_client : Config → Gate
unfolding new_gate
new_client c =
    new_gate (min_gap_of (magnitude c.fetch_rate_limit))
      (if is_empty c.flaresolverr_url then 2 else 1) default_cooldown

-- ===== src/Fetch/Classify.antt =====
-- `hasChallengeMarkers`, `classifyStatus` and `classifyFlareSolverrFailure`.
use property_search.Prelude.{
  ℕ, Text, Bool, true, false, not, ◌*◌, ltb, List, [], ◌∷◌, if◌then◌else◌, Casing, to_lower,
  contains, is_empty, codes, any,
}

-- `ErrorKind`
pub data ErrorKind : Type 0 where
  transport blocked http_status : ErrorKind

-- An answer: the two headers that are read, the body, and the body's length in bytes.
pub record Answer : Type 0 where
  pub cf_mitigated : Text
  pub cf_chl_bypass : Text
  pub body : Text
  pub body_bytes : ℕ

abbrev pub challenge_markers : List Text
challenge_markers =
    codes "Just a moment"
    ∷ codes "cf_chl"
    ∷ codes "cf-please-wait"
    ∷ codes "Attention Required!"
    ∷ []

-- `hasChallengeMarkers`
unfoldable pub has_challenge_markers : Answer → Bool
has_challenge_markers a =
    if not (is_empty a.cf_mitigated)
    then true
    else if not (is_empty a.cf_chl_bypass)
    then true
    else if ltb (16 * 1024) a.body_bytes
    then false
    else any (contains a.body) challenge_markers

-- `classifyStatus`
unfoldable pub classify_status : Answer → ErrorKind
unfolding has_challenge_markers
classify_status a = if has_challenge_markers a then blocked else http_status

abbrev pub network_markers : List Text
network_markers =
    codes "err_connection"
    ∷ codes "err_name_not_resolved"
    ∷ codes "err_address_unreachable"
    ∷ codes "err_tunnel_connection_failed"
    ∷ codes "err_proxy_connection_failed"
    ∷ codes "err_timed_out"
    ∷ codes "connection refused"
    ∷ []

-- `classifyFlareSolverrFailure`
unfoldable pub classify_flaresolverr_failure : Casing → Text → ErrorKind
classify_flaresolverr_failure u message =
    let lower = to_lower u message in
    if any (contains lower) network_markers
    then transport
    else if contains lower (codes "challenge")
    then blocked
    else http_status

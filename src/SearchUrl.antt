-- ===== src/SearchUrl.antt =====
-- internal/searchurl/normalize.go: which URLs are fetched, their canonical form, and the order by
-- recency. net/url is the interface `UrlOps`.
pub mod Hosts
use property_search.Prelude.{
  ℕ, Text, Bool, true, false, not, ◌&&◌, ◌||◌, ◌++◌, List, [], ◌∷◌, Option, none, some,
  if◌then◌else◌, Casing, to_lower, trim_space, has_prefix, has_suffix, trim_suffix, is_empty, codes,
  text_eq, any, filter,
}
use property_search.Parser.{Url, UrlOps}

abbrev pub zonaprop_host : Text
zonaprop_host = codes "zonaprop.com.ar"

abbrev pub tracking_params : List Text
tracking_params =
    codes "n_src" ∷ codes "n_pg" ∷ codes "n_pos" ∷ codes "n_pills" ∷ codes "n_search_id" ∷ []

abbrev pub recent_sort_suffix : Text
recent_sort_suffix = codes "-orden-publicado-descendente"

module _ (net : UrlOps) (u : Casing) where
  open net use {parse, hostname, render, query, encode}

  abbrev host_matches : Text → Text → Bool
  host_matches host domain = text_eq host domain || has_suffix host (b'.' ∷ domain)

  abbrev url_allowed : Text → Option Url → Bool
  url_allowed domain none = false
  url_allowed domain (some x) =
      text_eq x.scheme (codes "https")
      && host_matches (to_lower u (hostname x.host)) (to_lower u domain)

  -- `HostAllowed`
  unfoldable pub host_allowed : Text → Text → Bool
  host_allowed raw domain = url_allowed domain (parse (trim_space raw))

  -- `IsZonapropURL`
  unfoldable pub is_zonaprop_url : Text → Bool
  unfolding host_allowed
  is_zonaprop_url raw = host_allowed raw zonaprop_host

  abbrev pub is_tracking : Text × List Text → Bool
  is_tracking (key, values) =
      let lower = to_lower u key in
      any (text_eq lower) tracking_params || has_prefix lower (codes "utm_")

  abbrev normalized : Url → Option Text
  normalized x =
      if not (text_eq x.scheme (codes "http")) && not (text_eq x.scheme (codes "https"))
      then none
      else if is_empty x.host
      then none
      else some (
          render (record x {
            scheme = to_lower u x.scheme;
            host = to_lower u x.host;
            fragment = [];
            raw_query = encode (filter (λ p. not (is_tracking p)) (query x.raw_query));
          }))

  -- `Normalize`; `none` is an error.
  unfoldable pub normalize : Text → Option Text
  normalize raw = elim (parse (trim_space raw)) [ none ↦ none | some x ↦ normalized x ]

  -- The path with the suffix, in front of the extension if there is one.
  unfoldable pub sorted_path : Text → Text
  sorted_path base =
      if has_suffix base (codes ".html")
      then trim_suffix base (codes ".html") ++ (recent_sort_suffix ++ codes ".html")
      else base ++ recent_sort_suffix

  abbrev with_recent_sort : Text → Url → Text × Bool
  with_recent_sort raw x =
      let base = trim_suffix x.path (codes "/") in
      if has_suffix base recent_sort_suffix
      then (raw, false)
      else (render (record x { path = sorted_path base }), true)

  -- `InjectRecentSort`; `none` is an error.
  unfoldable pub inject_recent_sort : Text → Option (Text × Bool)
  unfolding sorted_path
  inject_recent_sort raw = elim (parse (trim_space raw)) [
    | none ↦ none
    | some x ↦ some (with_recent_sort raw x)
  ]

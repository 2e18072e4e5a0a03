-- ===== src/Parser/Place.antt =====
-- `operationOf`, `operationFor`, `Partido`, and the URLs: `originOf` and `canonical`.
use property_search.Prelude.{
  ℕ, Text, Bool, ◌||◌, ◌++◌, List, [], ◌∷◌, Option, none, some, ltb, if◌then◌else◌, Casing,
  to_lower, trim_space, index, is_empty, codes, text_eq, split, any,
}

-- The parts of a `url.URL` that the program reads or sets.
pub record Url : Type 0 where
  pub scheme : Text
  pub host : Text
  pub path : Text
  pub raw_query : Text
  pub fragment : Text

-- net/url: `Parse`, `ResolveReference`, `Hostname` of a host, `String`, and the query's decoding
-- and encoding. `u.Query()` is a list of keys, each with its values.
pub record UrlOps : Type 0 where
  pub parse : Text → Option Url
  pub resolve_reference : Url → Url → Url
  pub hostname : Text → Text
  pub render : Url → Text
  pub query : Text → List (Text × List Text)
  pub encode : List (Text × List Text) → Text
  -- `strings.EqualFold`, on host names
  pub equal_fold : Text → Text → Bool

abbrev earlier : Option ℕ → Option ℕ → Text
earlier none none = []
earlier none (some rent) = codes "alquiler"
earlier (some sale) none = codes "venta"
earlier (some sale) (some rent) = if ltb sale rent then codes "venta" else codes "alquiler"

-- `operationOf`
unfoldable pub operation_of : Casing → Text → Text
operation_of u raw =
    let lower = to_lower u raw in
    earlier (index lower (codes "venta")) (index lower (codes "alquiler"))

-- `operationFor`
unfoldable pub operation_for : Casing → Text → Text → Text
unfolding operation_of
operation_for u page href = if is_empty page then operation_of u href else page

abbrev pub macrozones : List Text
macrozones =
    codes "gba norte"
    ∷ codes "gba sur"
    ∷ codes "gba oeste"
    ∷ codes "capital federal"
    ∷ codes "ciudad de buenos aires"
    ∷ []

abbrev is_macrozone : Casing → Text → Bool
is_macrozone u last = any (text_eq (to_lower u last)) macrozones

abbrev last_part : Text → List Text → Text
last_part p [] = p
last_part p (q ∷ ps) = last_part q ps

abbrev partido_of : Casing → List Text → Text
partido_of u [] = []
partido_of u (p ∷ []) = trim_space p
partido_of u (p ∷ q ∷ ps) =
    let last = trim_space (last_part q ps) in if is_macrozone u last then trim_space p else last

-- `Partido`
unfoldable pub partido : Casing → Text → Text
partido u location = partido_of u (split b',' location)

module _ (net : UrlOps) where
  open net use {parse, resolve_reference, hostname, render, equal_fold}

  abbrev origin : Option Url → Text
  origin none = []
  origin (some x) =
      if is_empty x.scheme || is_empty x.host then [] else x.scheme ++ (codes "://" ++ x.host)

  -- `originOf`
  unfoldable pub origin_of : Text → Text
  origin_of raw = origin (parse (trim_space raw))

  abbrev canonical_at : Option Url → Option Url → Option Text
  canonical_at none ref = none
  canonical_at (some base) none = none
  canonical_at (some base) (some ref) =
      let x = resolve_reference base ref in
      if equal_fold (hostname x.host) (hostname base.host)
      then some (render (record x { raw_query = []; fragment = [] }))
      else none

  -- `canonical`; `none` is ok = false.
  unfoldable pub canonical : Text → Text → Option Text
  canonical site href = canonical_at (parse site) (parse (trim_space href))

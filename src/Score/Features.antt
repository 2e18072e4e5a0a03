-- ===== src/Score/Features.antt =====
-- features.go: the buckets that the model learns on. A `Features` map is the list of its entries, in
-- the order in which a `range` over it goes.
use property_search.Prelude.{
  ℤ, Text, Bool, not, ◌&&◌, ◌||◌, ◌++◌, List, [], ◌∷◌, Option, none, some, if◌then◌else◌, Casing,
  is_empty, codes, text_eq, format_int,
}
use property_search.Model.{Float, Listing}
use property_search.Parser.{partido}
use property_search.Score.Floats.{FloatOps}

abbrev pub unknown : Text
unknown = codes "unknown"

pub record Feature : Type 0 where
  pub name : Text
  pub value : Text

abbrev pub Features : Type 0
Features = List Feature

-- `namespaceOf`
unfoldable pub namespace_of : Listing → Text
namespace_of l =
    if is_empty l.operation || is_empty l.currency then [] else l.operation ++ (b':' ∷ l.currency)

-- `intBucket`
unfoldable pub int_bucket : Option ℤ → Text
int_bucket none = unknown
int_bucket (some v) = format_int v

module _ (f : FloatOps) where
  open f use {decimal, of_int, add, mul, div, log, floor, lt, to_int, format_rounded}

  abbrev not_above : Float → Float → Bool
  not_above a b = not (lt b a)

  -- `linearBin`; `v <= 0` is false of a NaN, and so is `0 < v`.
  unfoldable pub linear_bin : Float → Float → Text
  linear_bin v step =
      let zero = decimal 0 0 in
      if (lt v zero || f.eq v zero) || (lt step zero || f.eq step zero)
      then unknown
      else (let lo = mul (floor (div v step)) step in
          format_rounded lo ++ (b'-' ∷ format_rounded (add lo step)))

  -- `logBin`
  unfoldable pub log_bin : Float → Float → Text
  log_bin v ratio =
      let zero = decimal 0 0 in
      let one = decimal 1 0 in
      if (lt v zero || f.eq v zero) || (lt ratio one || f.eq ratio one)
      then unknown
      else codes "log" ++ format_int (to_int (floor (div (log v) (log ratio))))

  abbrev ppm2_linear_step : Float
  ppm2_linear_step = decimal 250 0

  abbrev log_bin_ratio : Float
  log_bin_ratio = decimal 112 2

  abbrev m2_step : Float
  m2_step = decimal 10 0

  -- `binFor`
  unfoldable pub bin_for : Text → Text → Float → Text
  unfolding linear_bin log_bin
  bin_for namespace feature value =
      if text_eq namespace (codes "venta:USD")
        && (text_eq feature (codes "ppm2") && lt (decimal 0 0) value)
      then linear_bin value ppm2_linear_step
      else log_bin value log_bin_ratio

  abbrev price_per : Option ℤ → Option Float → Option Float
  price_per none m2 = none
  price_per (some price) none = none
  price_per (some price) (some m2) =
      if lt m2 (decimal 10 0) || lt (decimal 1000 0) m2 then none else some (div (of_int price) m2)

  -- `pricePerM2`
  unfoldable pub price_per_m2 : Listing → Option Float
  price_per_m2 l = price_per l.price_amount l.m2_tot

  abbrev partido_or_unknown : Text → Text
  partido_or_unknown p = if is_empty p then unknown else p

  abbrev size_features : Option Float → Option Float → Features
  size_features (some tot) cub =
      record { name = codes "m2:tot"; value = linear_bin tot m2_step } ∷ []
  size_features none (some cub) =
      record { name = codes "m2:cub"; value = linear_bin cub m2_step } ∷ []
  size_features none none = []

  abbrev ppm2_features : Text → Option Float → Features
  ppm2_features ns none = []
  ppm2_features ns (some v) =
      record { name = codes "ppm2:" ++ ns; value = bin_for ns (codes "ppm2") v } ∷ []

  abbrev expensas_features : Text → Option ℤ → Features
  expensas_features ns none = []
  expensas_features ns (some n) =
      record { name = codes "expensas:" ++ ns; value = bin_for ns (codes "expensas") (of_int n) }
      ∷ []

  -- With no namespace, no numeric bucket.
  abbrev numeric_features : Text → Listing → Features
  numeric_features [] l = []
  numeric_features (c ∷ ns) l =
      ppm2_features (c ∷ ns) (price_per_m2 l) ++ expensas_features (c ∷ ns) l.expensas

  -- `Extract`
  unfoldable pub extract : Casing → Listing → Features
  unfolding namespace_of int_bucket bin_for price_per_m2
  extract u l =
      record { name = codes "partido"; value = partido_or_unknown (partido u l.location) }
      ∷ record { name = codes "banios"; value = int_bucket l.banos }
      ∷ (size_features l.m2_tot l.m2_cub ++ numeric_features (namespace_of l) l)

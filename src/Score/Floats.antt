-- ===== src/Score/Floats.antt =====
-- float64 arithmetic, which Go takes from the machine and from package math: an interface over the
-- bit patterns. `decimal m k` is the literal m / 10^k.
use property_search.Prelude.{ℕ, ℤ, Text, Bool}
use property_search.Model.{Float}

pub record FloatOps : Type 0 where
  pub decimal : ℕ → ℕ → Float
  pub of_int : ℤ → Float
  pub add : Float → Float → Float
  pub sub : Float → Float → Float
  pub mul : Float → Float → Float
  pub div : Float → Float → Float
  pub log : Float → Float
  pub floor : Float → Float
  pub abs : Float → Float
  pub lt : Float → Float → Bool
  pub eq : Float → Float → Bool
  -- int(f)
  pub to_int : Float → ℤ
  -- fmt's %.0f
  pub format_rounded : Float → Text

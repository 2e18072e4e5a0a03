-- ===== src/Config/Gives.antt =====
-- What holds of the value of a reading, whenever it is not refused.
use mathlib.Core.Path.{subst}
use property_search.Prelude.{◌≡◌, refl, Bool, true, false, Option, none, some, arith}
use property_search.Config.Settings.{
  ConfigError, Loaded, loaded, refused, ◌>>=◌, or_refused, require,
}

pub record Gives {A : Type 0} (P : A → Type 0) (m : Loaded A) : Type 0 where
  pub at : (a : A) → m ≡ loaded a → P a

module _ {A : Type 0} {P : A → Type 0} where
  pub Gives-loaded : (a : A) → P a → Gives P (loaded a)
  Gives-loaded a h = record { at = λ b e. let same : a ≡ b = ground arith in subst P same h }

  pub Gives-refused : (x : ConfigError) → Gives P (refused x)
  Gives-refused x = record { at = λ b e. ground arith }

  pub Gives-require :
      (b : Bool) (e : ConfigError) (a : A) → (b ≡ true → P a) → Gives P (require b e a)
  Gives-require true e a h = Gives-loaded a (h refl)
  Gives-require false e a h = Gives-refused e

  pub Gives-or_refused :
      (e : ConfigError) (o : Option A) → ((a : A) → o ≡ some a → P a) → Gives P (or_refused e o)
  Gives-or_refused e none h = Gives-refused e
  Gives-or_refused e (some a) h = Gives-loaded a (h a refl)

pub Gives-any : {A : Type 0} (m : Loaded A) → Gives (λ a. Unit) m
Gives-any m = record { at = λ a e. tt }

module _ {A B : Type 0} {P : A → Type 0} {Q : B → Type 0} where
  pub Gives-bind :
      (m : Loaded A) (f : A → Loaded B)
      → Gives P m
      → ((a : A) → P a → Gives Q (f a))
      → Gives Q (m >>= f)
  Gives-bind (loaded a) f g h = h a (g.at a refl)
  Gives-bind (refused e) f g h = Gives-refused e

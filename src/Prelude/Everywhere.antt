-- ===== src/Prelude/Everywhere.antt =====
-- What holds of every item of a list, over appending, updating, filtering and searching.
use mathlib.Core.Path.{◌≡◌, subst}
use mathlib.Core.Bool.{Bool}
use mathlib.Core.List.{List, [], ◌∷◌, ◌++◌}
use mathlib.Core.Option.{some}
use mathlib.Core.Logic.{inl, inr}
use property_search.Prelude.Tests.{Bool-cases}
use property_search.Prelude.Lists.{All, update, filter, find?}

module _ {ℓ κ} {A : Type ℓ} (P : A → Type κ) where
  pub All-snoc : (xs : List A) (x : A) → All P xs → P x → All P (xs ++ x ∷ [])
  All-snoc [] x h p = (p, tt)
  All-snoc (y ∷ xs) x (hy, h) p = (hy, All-snoc xs x h p)

  pub All-update :
      (q : A → Bool) (f : A → A) (xs : List A)
      → ((x : A) → P x → P (f x))
      → All P xs
      → All P (update q f xs)
  All-update q f [] k h = tt
  All-update q f (x ∷ xs) k (hx, h) = elim (Bool-cases (q x)) [
    | inl e ↦ rw e (k x hx, All-update q f xs k h)
    | inr e ↦ rw e (hx, All-update q f xs k h)
  ]

  pub All-filter : (q : A → Bool) (xs : List A) → All P xs → All P (filter q xs)
  All-filter q [] h = tt
  All-filter q (x ∷ xs) (hx, h) = elim (Bool-cases (q x)) [
    | inl e ↦ rw e (hx, All-filter q xs h)
    | inr e ↦ rw e (All-filter q xs h)
  ]

  pub All-find? : (q : A → Bool) (xs : List A) (x : A) → All P xs → find? q xs ≡ some x → P x
  All-find? q [] x h e = absurd (cc e)
  All-find? q (y ∷ xs) x (hy, h) e = elim (Bool-cases (q y)) [
    | inl f ↦ subst P (found (rw f at e)) hy
    | inr f ↦ All-find? q xs x h (rw f at e)
  ]
    where
      found : some y ≡ some x → y ≡ x
      found p = cc

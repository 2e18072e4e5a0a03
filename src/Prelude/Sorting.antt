-- ===== src/Prelude/Sorting.antt =====
-- A stable insertion sort: `sort.SliceStable`, and `ORDER BY` over a comparison that breaks its ties.
use Prim.Native.Nat.{ℕ, suc, ◌+◌}
use mathlib.Core.Path.{◌≡◌, refl}
use mathlib.Core.Bool.{Bool, true, false}
use mathlib.Core.List.{List, [], ◌∷◌}
use native.Mathlib.Omega.{arith}
use mathlib.Core.Logic.{inl, inr}
use property_search.Prelude.Tests.{if◌then◌else◌, Bool-cases}
use property_search.Prelude.Lists.{All, count, length, sum_by}

module _ {ℓ} {A : Type ℓ} (before : A → A → Bool) where
  -- `x` stood in front of `ys`, and stays in front of its equals.
  unfoldable pub insert_sorted : A → List A → List A
  insert_sorted x [] = x ∷ []
  insert_sorted x (y ∷ ys) = if before y x then y ∷ insert_sorted x ys else x ∷ (y ∷ ys)

  unfoldable pub sort_stable : List A → List A
  unfolding insert_sorted
  sort_stable [] = []
  sort_stable (x ∷ xs) = insert_sorted x (sort_stable xs)

  count-insert_sorted :
      (p : A → Bool) (x : A) (ys : List A)
      → count p (insert_sorted x ys) ≡ (if p x then 1 else 0) + count p ys
  unfolding insert_sorted
  count-insert_sorted p x [] = omega arith
  count-insert_sorted p x (y ∷ ys) = elim (Bool-cases (before y x)) [
    | inl later ↦ rw later (omega (arith, count-insert_sorted p x ys))
    | inr earlier ↦ rw earlier (omega arith)
  ]

  -- Whatever is counted, there is as much of it after the sort.
  pub count-sort_stable : (p : A → Bool) (xs : List A) → count p (sort_stable xs) ≡ count p xs
  unfolding sort_stable
  count-sort_stable p [] = refl
  count-sort_stable p (x ∷ xs) =
      omega (arith, count-insert_sorted p x (sort_stable xs), count-sort_stable p xs)

  sum_by-insert_sorted :
      (g : A → ℕ) (x : A) (ys : List A) → sum_by g (insert_sorted x ys) ≡ g x + sum_by g ys
  unfolding insert_sorted
  sum_by-insert_sorted g x [] = omega arith
  sum_by-insert_sorted g x (y ∷ ys) = elim (Bool-cases (before y x)) [
    | inl later ↦ rw later (omega (arith, sum_by-insert_sorted g x ys))
    | inr earlier ↦ rw earlier (omega arith)
  ]

  pub sum_by-sort_stable : (g : A → ℕ) (xs : List A) → sum_by g (sort_stable xs) ≡ sum_by g xs
  unfolding sort_stable
  sum_by-sort_stable g [] = refl
  sum_by-sort_stable g (x ∷ xs) =
      omega (arith, sum_by-insert_sorted g x (sort_stable xs), sum_by-sort_stable g xs)

  All-insert_sorted {κ} :
      (P : A → Type κ) (x : A) (ys : List A) → P x → All P ys → All P (insert_sorted x ys)
  unfolding insert_sorted
  All-insert_sorted P x [] h k = (h, tt)
  All-insert_sorted P x (y ∷ ys) h k = elim (Bool-cases (before y x)) [
    | inl later ↦ rw later (k.0, All-insert_sorted P x ys h k.1)
    | inr earlier ↦ rw earlier (h, k)
  ]

  pub All-sort_stable {κ} : (P : A → Type κ) (xs : List A) → All P xs → All P (sort_stable xs)
  unfolding sort_stable
  All-sort_stable P [] h = tt
  All-sort_stable P (x ∷ xs) h =
      All-insert_sorted P x (sort_stable xs) h.0 (All-sort_stable P xs h.1)

  length-insert_sorted : (x : A) (ys : List A) → length (insert_sorted x ys) ≡ suc (length ys)
  unfolding insert_sorted
  length-insert_sorted x [] = refl
  length-insert_sorted x (y ∷ ys) = ground (arith, length-insert_sorted x ys)

  pub length-sort_stable : (xs : List A) → length (sort_stable xs) ≡ length xs
  unfolding sort_stable
  length-sort_stable [] = refl
  length-sort_stable (x ∷ xs) =
      omega (arith, length-insert_sorted x (sort_stable xs), length-sort_stable xs)

  -- No element is out of order with its successor.
  abbrev pub IsSorted : List A → Type 0
  IsSorted [] = Unit
  IsSorted (x ∷ []) = Unit
  IsSorted (x ∷ y ∷ ys) = (before y x ≡ false) × IsSorted (y ∷ ys)

  IsSorted-tail : (y : A) (ys : List A) → IsSorted (y ∷ ys) → IsSorted ys
  IsSorted-tail y [] h = tt
  IsSorted-tail y (z ∷ zs) h = h.1

  IsSorted-insert_sorted_behind :
      ((a b : A) → before a b ≡ true → before b a ≡ false)
      → (x y : A) (ys : List A) → before y x ≡ true
      → IsSorted (y ∷ ys)
      → IsSorted (insert_sorted x ys)
      → IsSorted (y ∷ insert_sorted x ys)
  unfolding insert_sorted
  IsSorted-insert_sorted_behind asym x y [] later h k = (asym y x later, tt)
  IsSorted-insert_sorted_behind asym x y (z ∷ zs) later h k = elim (Bool-cases (before z x)) [
    | inl e ↦ rw e (h.0, rw e at k)
    | inr e ↦ rw e (asym y x later, rw e at k)
  ]

  IsSorted-insert_sorted :
      ((a b : A) → before a b ≡ true → before b a ≡ false)
      → (x : A) (ys : List A) → IsSorted ys
      → IsSorted (insert_sorted x ys)
  unfolding insert_sorted
  IsSorted-insert_sorted asym x [] h = tt
  IsSorted-insert_sorted asym x (y ∷ ys) h = elim (Bool-cases (before y x)) [
    | inl e ↦ rw e (
        IsSorted-insert_sorted_behind asym x y ys e h
          (IsSorted-insert_sorted asym x ys (IsSorted-tail y ys h)))
    | inr e ↦ rw e (e, h)
  ]

  -- The result is in order, where the order is asymmetric.
  pub IsSorted-sort_stable :
      ((a b : A) → before a b ≡ true → before b a ≡ false)
      → (xs : List A) → IsSorted (sort_stable xs)
  unfolding sort_stable
  IsSorted-sort_stable asym [] = tt
  IsSorted-sort_stable asym (x ∷ xs) =
      IsSorted-insert_sorted asym x (sort_stable xs) (IsSorted-sort_stable asym xs)

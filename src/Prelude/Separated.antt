-- ===== src/Prelude/Separated.antt =====
-- Texts that are joined by a separator and split again, and texts without space at their ends.
use Prim.Native.Nat.{ℕ}
use mathlib.Core.Path.{◌≡◌, refl, ap, ◌∙◌}
use mathlib.Core.Bool.{Bool, true, false, not}
use mathlib.Core.List.{List, [], ◌∷◌, ◌++◌, reverse, reverse-cons, reverse-reverse}
use mathlib.Core.Option.{some}
use native.Mathlib.Omega.{arith}
use property_search.Prelude.Tests.{◌==◌, ==_refl}
use property_search.Prelude.Lists.{All}
use property_search.Prelude.Texts.{
  Text, is_empty, cut, split, join, is_space, trim_left, trim_space,
}

-- `sep` does not occur in the text.
abbrev pub Free : ℕ → Text → Type 0
Free sep s = All (λ c. (c == sep) ≡ false) s

-- The text does not begin with space.
abbrev pub starts_clean : Text → Bool
unfolding is_space
starts_clean [] = true
starts_clean (c ∷ s) = not (is_space c)

abbrev pub IsTrimmed : Text → Type 0
IsTrimmed s = (starts_clean s ≡ true) × (starts_clean (reverse s) ≡ true)

pub cut-append : (sep : ℕ) (a b : Text) → Free sep a → cut sep (a ++ sep ∷ b) ≡ some (a, b)
unfolding cut
cut-append sep [] b h = rw (==_refl sep) refl
cut-append sep (c ∷ a) b (hc, h) = rw (hc, cut-append sep a b h) refl

split-Free : (sep : ℕ) (s : Text) → Free sep s → split sep s ≡ s ∷ []
unfolding split
split-Free sep [] h = refl
split-Free sep (c ∷ s) (hc, h) = rw (hc, split-Free sep s h) refl

split-append : (sep : ℕ) (a b : Text) → Free sep a → split sep (a ++ sep ∷ b) ≡ a ∷ split sep b
unfolding split
split-append sep [] b h = rw (==_refl sep) refl
split-append sep (c ∷ a) b (hc, h) = rw (hc, split-append sep a b h) refl

pub split-join :
    (sep : ℕ) (w : Text) (ws : List Text)
    → All (Free sep) (w ∷ ws)
    → split sep (join (sep ∷ []) (w ∷ ws)) ≡ w ∷ ws
unfolding join
split-join sep w [] (h, _) = split-Free sep w h
split-join sep w (v ∷ ws) (h, hs) =
    split-append sep w (join (sep ∷ []) (v ∷ ws)) h ∙ ap (λ t. w ∷ t) (split-join sep v ws hs)

trim_left-clean : (s : Text) → starts_clean s ≡ true → trim_left s ≡ s
unfolding trim_left is_space
trim_left-clean [] h = refl
trim_left-clean (c ∷ s) h = ground arith

pub trim_space-IsTrimmed : (s : Text) → IsTrimmed s → trim_space s ≡ s
unfolding trim_space
trim_space-IsTrimmed s (front, back) =
    rw (trim_left-clean s front, trim_left-clean (reverse s) back) (reverse-reverse s)

pub starts_clean-append :
    (s : Text) (c : ℕ) (t : Text)
    → starts_clean s ≡ true
    → is_space c ≡ false
    → starts_clean (s ++ c ∷ t) ≡ true
unfolding is_space
starts_clean-append [] c t h hc = ground arith
starts_clean-append (x ∷ s) c t h hc = h

trim_left-snoc :
    (s : Text) (c : ℕ) → is_space c ≡ false → is_empty (trim_left (s ++ c ∷ [])) ≡ false
unfolding trim_left
trim_left-snoc [] c h = rw h refl
trim_left-snoc (x ∷ s) c h = ground (arith, trim_left-snoc s c h)

is_empty-snoc : (s : Text) (c : ℕ) → is_empty (s ++ c ∷ []) ≡ false
is_empty-snoc [] c = refl
is_empty-snoc (x ∷ s) c = refl

is_empty-reverse : (s : Text) → is_empty s ≡ false → is_empty (reverse s) ≡ false
is_empty-reverse [] h = h
is_empty-reverse (c ∷ s) h = rw (reverse-cons c s) (is_empty-snoc (reverse s) c)

-- A text that begins with something other than space is not blank.
pub trim_space_non_blank :
    (c : ℕ) (s : Text) → is_space c ≡ false → is_empty (trim_space (c ∷ s)) ≡ false
unfolding trim_space
trim_space_non_blank c s h = rw (trim_left-clean (c ∷ s) (ground arith)) (
    is_empty-reverse (trim_left (reverse (c ∷ s)))
      (rw (reverse-cons c s) (trim_left-snoc (reverse s) c h)))

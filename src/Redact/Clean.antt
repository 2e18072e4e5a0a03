-- ===== src/Redact/Clean.antt =====
-- internal/httpx/httpx.go: secrets in the redacted text.
use property_search.Prelude.{
  ℕ, zero, suc, ◌-◌, ◌≡◌, refl, Text, is_empty, Bool, true, false, not, ◌&&◌, List, [], ◌∷◌, All,
  arith, Bool-cases, inl, inr, has_prefix, contains, length,
}
use property_search.Prelude.Separated.{Free}
use property_search.Redact.{replace_from, stars, redact_one, redact_text}

-- A secret that is not empty stands in the text.
abbrev pub leaks : Text → Text → Bool
leaks text q = not (is_empty q) && contains text q

has_prefix-replace_from :
    (old q s : Text)
    → Free b'*' q
    → has_prefix (replace_from old stars zero s) q ≡ true
    → has_prefix s q ≡ true
unfolding has_prefix replace_from
has_prefix-replace_from old [] s free h = refl
has_prefix-replace_from old (p ∷ q) [] free h = h
has_prefix-replace_from old (p ∷ q) (c ∷ s) (hp, free) h =
    ground (arith, has_prefix-replace_from old q s free)

-- A replacement puts no secret together: what stands in the new text stood in the old one.
contains-replace_from :
    (old q : Text) (k : ℕ) (s : Text) (p : ℕ)
    → Free b'*' (p ∷ q)
    → contains (replace_from old stars k s) (p ∷ q) ≡ true
    → contains s (p ∷ q) ≡ true
unfolding contains has_prefix replace_from
contains-replace_from old q zero [] p free h = h
contains-replace_from old q (suc k) [] p free h = h
contains-replace_from old q (suc k) (c ∷ s) p free h =
    ground (arith, contains-replace_from old q k s p free)
contains-replace_from old q zero (c ∷ s) p free h = elim (Bool-cases (has_prefix (c ∷ s) old)) [
  | inl e ↦ ground (arith, contains-replace_from old q (length old - 1) s p free)
  | inr e ↦ ground (
    arith,
    contains-replace_from old q zero s p free,
    has_prefix-replace_from old (p ∷ q) (c ∷ s) free,
  )
]

replace_from-clean :
    (q : Text) (k : ℕ) (s : Text) (p : ℕ)
    → Free b'*' (p ∷ q)
    → contains (replace_from (p ∷ q) stars k s) (p ∷ q) ≡ false
unfolding contains has_prefix replace_from
replace_from-clean q zero [] p free = refl
replace_from-clean q (suc k) [] p free = refl
replace_from-clean q (suc k) (c ∷ s) p free = replace_from-clean q k s p free
replace_from-clean q zero (c ∷ s) p free = elim (Bool-cases (has_prefix (c ∷ s) (p ∷ q))) [
  | inl e ↦ ground (arith, replace_from-clean q (length (p ∷ q) - 1) s p free)
  | inr e ↦ ground (
    arith,
    replace_from-clean q zero s p free,
    has_prefix-replace_from (p ∷ q) (p ∷ q) (c ∷ s) free,
  )
]

redact_one-leaks :
    (message old q : Text)
    → Free b'*' q
    → leaks message q ≡ false
    → leaks (redact_one message old) q ≡ false
unfolding redact_one
redact_one-leaks message [] q free h = h
redact_one-leaks message (o ∷ os) [] free h = refl
redact_one-leaks message (o ∷ os) (p ∷ q) free h =
    ground (arith, contains-replace_from (o ∷ os) q zero message p free)

redact_one_clean : (message q : Text) → Free b'*' q → leaks (redact_one message q) q ≡ false
unfolding redact_one
redact_one_clean message [] free = refl
redact_one_clean message (p ∷ q) free = replace_from-clean q zero message p free

redact_text-leaks :
    (message : Text) (secrets : List Text) (q : Text)
    → Free b'*' q
    → leaks message q ≡ false
    → leaks (redact_text message secrets) q ≡ false
unfolding redact_text
redact_text-leaks message [] q free h = h
redact_text-leaks message (s ∷ secrets) q free h =
    redact_text-leaks (redact_one message s) secrets q free (redact_one-leaks message s q free h)

-- None of the secrets that are not empty stands in the redacted text, in whatever order they are given
-- and however they overlap, if none of them contains an asterisk.
pub redact_text-clean :
    (message : Text) (secrets : List Text)
    → All (Free b'*') secrets
    → All (λ q. leaks (redact_text message secrets) q ≡ false) secrets
unfolding redact_text
redact_text-clean message [] free = tt
redact_text-clean message (s ∷ secrets) (hs, free) = (
  redact_text-leaks (redact_one message s) secrets s hs (redact_one_clean message s hs),
  redact_text-clean (redact_one message s) secrets free,
)

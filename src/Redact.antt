-- ===== src/Redact.antt =====
-- internal/httpx/httpx.go: `Redact`, the text of an error without its secrets.
pub mod Clean
use property_search.Prelude.{
  ℕ, zero, suc, ◌-◌, Text, codes, is_empty, text_eq, has_prefix, Bool, true, false, List, [], ◌∷◌,
  ◌++◌, Option, none, some, length, if◌then◌else◌,
}

-- `strings.ReplaceAll` of a text that is not empty; `skip` characters belong to the last match.
unfoldable pub replace_from : Text → Text → ℕ → Text → Text
replace_from old new skip [] = []
replace_from old new zero (c ∷ s) =
    let kept = replace_from old new zero s in
    let replaced = replace_from old new (length old - 1) s in
    if has_prefix (c ∷ s) old then new ++ replaced else c ∷ kept
replace_from old new (suc skip) (c ∷ s) = replace_from old new skip s

abbrev pub stars : Text
stars = codes "***"

unfoldable pub redact_one : Text → Text → Text
unfolding replace_from
redact_one message [] = message
redact_one message (q ∷ qs) = replace_from (q ∷ qs) stars zero message

unfoldable pub redact_text : Text → List Text → Text
unfolding redact_one
redact_text message [] = message
redact_text message (q ∷ qs) = redact_text (redact_one message q) qs

-- `Redact`: the error itself, or a fresh one with another text.
pub data Redacted : Type 0 where
  as_it_was : Redacted
  fresh : Text → Redacted

abbrev pub redact : Option Text → List Text → Option Redacted
unfolding redact_text text_eq
redact none secrets = none
redact (some message) secrets =
    let redacted = redact_text message secrets in
    some (if text_eq redacted message then as_it_was else fresh redacted)

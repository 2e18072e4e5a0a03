-- ===== src/Telegram/Response/Accepted.antt =====
-- When a send counts as accepted, and what its error tells.
use mathlib.Core.Path.{subst}
use property_search.Prelude.{
  ℕ, ◌≡◌, refl, ◌⊎◌, inl, inr, Text, Bool, true, false, List, [], ◌∷◌, Option, any, arith, codes,
  ◌++◌,
}
use property_search.Telegram.Post.{Exchange, accepted, post}
use property_search.Telegram.Response.{
  ApiResponse, HttpAnswer, transport_error, client_failed, Done, decoded, not_done, exchange_of,
  do_request, post_answers,
}
use property_search.Prelude.Separated.{Free}
use property_search.Redact.{redact_text}
use property_search.Redact.Clean.{leaks, redact_text-clean}

abbrev pub grants : Done → Bool
grants (not_done e) = false
grants (decoded r status) = r.ok

post-grants :
    (i : Bool) (d : Done) (xs rest : List Exchange)
    → post (exchange_of i d ∷ xs) ≡ accepted rest
    → (grants d ≡ true) ⊎ (post xs ≡ accepted rest)
unfolding post exchange_of
post-grants i (not_done e) xs rest h = absurd (cc h)
post-grants i (decoded r status) xs rest h = ground (arith, h)

module _ (decode : List ℕ → Option ApiResponse) (token : Text) where
  -- A send is accepted only if one of the answers was read, decoded within its limit, and says `ok`.
  pub post_answers-grants :
      (answers : List (Bool × HttpAnswer)) (rest : List Exchange)
      → post_answers decode token answers ≡ accepted rest
      → any (λ (i, a). grants (do_request decode token a)) answers ≡ true
  unfolding post_answers post exchange_of
  post_answers-grants [] rest h = absurd (cc h)
  post_answers-grants ((i, a) ∷ answers) rest h =
      elim (post-grants i (do_request decode token a) _ rest h) [
        | inl e ↦ rw e refl
        | inr e ↦ rw (post_answers-grants answers rest e) (ground arith)
      ]

  -- The error of a request that did not go through does not show the token, if that holds no asterisk.
  pub do_request-clean :
      (e shown : Text)
      → Free b'*' token
      → do_request decode token (transport_error e) ≡ not_done (client_failed shown)
      → leaks shown token ≡ false
  unfolding do_request
  do_request-clean e shown free h =
      subst (λ t. leaks t token ≡ false) same
        (redact_text-clean (codes "telegram: " ++ e) (token ∷ []) (free, tt)).0
    where
      same : redact_text (codes "telegram: " ++ e) (token ∷ []) ≡ shown
      same = cc

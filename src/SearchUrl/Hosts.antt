-- ===== src/SearchUrl/Hosts.antt =====
-- Which URLs the program fetches.
use property_search.Prelude.{
  Text, ◌≡◌, refl, sym, ◌∙◌, ap, true, ◌⊎◌, inl, inr, [], ◌∷◌, ◌++◌, some, arith, Casing, codes,
  to_lower, trim_space, text_eq, text_eq_iff, has_prefix, has_suffix, reverse, reverse-append,
  reverse-reverse, ==_iff, Option-cases, Bool-cases,
}
use property_search.Parser.{Url, UrlOps}
use property_search.SearchUrl.{host_allowed}

has_prefix-append : (s p : Text) → has_prefix s p ≡ true → (rest : Text) × (s ≡ p ++ rest)
unfolding has_prefix
has_prefix-append s [] h = (s, refl)
has_prefix-append [] (c ∷ p) h = cc
has_prefix-append (d ∷ s) (c ∷ p) h =
    let (rest, e) = has_prefix-append s p (ground arith) in (rest, ground (arith, ==_iff d c))

has_suffix-append : (s p : Text) → has_suffix s p ≡ true → (front : Text) × (s ≡ front ++ p)
unfolding has_suffix
has_suffix-append s p h =
    let (rest, e) = has_prefix-append (reverse s) (reverse p) h in
    (
      reverse rest,
      sym (reverse-reverse s)
          ∙ ap reverse e
          ∙ reverse-append (reverse p) rest
          ∙ ap (λ t. reverse rest ++ t) (reverse-reverse p),
    )

-- The host is the domain, or ends in a dot and the domain.
abbrev pub IsWithin : Text → Text → Type 0
IsWithin domain host = (host ≡ domain) ⊎ ((front : Text) × (host ≡ front ++ (b'.' ∷ domain)))

-- A URL that is taken for one of a domain parses, has the scheme https, and its lower-cased host name,
-- without a port, is the domain or a subdomain of it: no other domain that merely ends or begins with
-- the same letters passes.
pub host_allowed-IsWithin :
    (net : UrlOps) (u : Casing) (raw domain : Text)
    → host_allowed net u raw domain ≡ true
    → (x : Url) × (net.parse (trim_space raw) ≡ some x)
      × (x.scheme ≡ codes "https")
      × IsWithin (to_lower u domain) (to_lower u (net.hostname x.host))
unfolding host_allowed
host_allowed-IsWithin net u raw domain h = elim (Option-cases (net.parse (trim_space raw))) [
  | inl e ↦ ground arith
  | inr (x, e) ↦ (
    x,
    e,
    ground (arith, text_eq_iff x.scheme (codes "https")),
    elim (Bool-cases (text_eq (to_lower u (net.hostname x.host)) (to_lower u domain))) [
      | inl same ↦
          inl (ground (arith, text_eq_iff (to_lower u (net.hostname x.host)) (to_lower u domain)))
      | inr other ↦ inr (
          has_suffix-append (to_lower u (net.hostname x.host)) (b'.' ∷ to_lower u domain)
            (ground arith))
    ],
  )
]

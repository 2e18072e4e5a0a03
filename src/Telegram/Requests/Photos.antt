-- ===== src/Telegram/Requests/Photos.antt =====
-- internal/telegram/telegram.go: the images that a card makes the program download.
use property_search.Prelude.{
  ◌≡◌, ◌≢◌, Text, codes, true, ◌⊎◌, inl, inr, [], some, arith, Casing, to_lower, trim_space,
  Bool-cases,
}
use property_search.Model.{Delivery}
use property_search.Parser.{Url, UrlOps}
use property_search.SearchUrl.{host_allowed}
use property_search.SearchUrl.Hosts.{IsWithin, host_allowed-IsWithin}
use property_search.Telegram.Caption.{photo_url_allowed}
use property_search.Telegram.Requests.{Notifier, dry_run, photo_request}

-- The URL is one of https on the domain or below it.
abbrev pub IsServedBy : UrlOps → Casing → Text → Text → Type 0
IsServedBy net u domain url =
    (x : Url) × (net.parse (trim_space url) ≡ some x)
    × (x.scheme ≡ codes "https")
    × IsWithin (to_lower u domain) (to_lower u (net.hostname x.host))

photo_url_allowed-IsServedBy :
    (net : UrlOps) (u : Casing) (url : Text)
    → photo_url_allowed net u url ≡ true
    → IsServedBy net u (codes "zonapropcdn.com") url
      ⊎ IsServedBy net u (codes "zonaprop.com.ar") url
unfolding photo_url_allowed
photo_url_allowed-IsServedBy net u url h =
    elim (Bool-cases (host_allowed net u url (codes "zonapropcdn.com"))) [
      | inl e ↦ inl (host_allowed-IsWithin net u url (codes "zonapropcdn.com") e)
      | inr e ↦ inr (host_allowed-IsWithin net u url (codes "zonaprop.com.ar") (ground arith))
    ]

-- Whatever URL the page of a listing gives for its photo, the program downloads it only over https
-- from one of the portal's two domains or a host below them, and never without a token.
pub photo_request-IsServedBy :
    (net : UrlOps) (u : Casing) (n : Notifier) (d : Delivery) (url : Text)
    → photo_request net u n d ≡ some url
    → (n.token ≢ [])
      × (IsServedBy net u (codes "zonapropcdn.com") url
          ⊎ IsServedBy net u (codes "zonaprop.com.ar") url)
unfolding photo_request
photo_request-IsServedBy net u n d url e = elim (Bool-cases (dry_run n)) [
  | inl dry ↦ ground arith
  | inr live ↦ (ground arith, photo_url_allowed-IsServedBy net u url (ground arith))
]

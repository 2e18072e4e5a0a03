-- ===== src/Outside.antt =====
-- What the handlers take from code that is not the program's: net/url, Unicode casing, float64
-- arithmetic, the pages of the portal and the text of an error. `pages` answers the fetch that is
-- issued at a given step; its failures are already classified.
use property_search.Prelude.{ℕ, Text, List, Option, none, some, Casing}
use property_search.Model.{Listing}
use property_search.Parser.{UrlOps, FloatParser, Card, Stats, parse_with_stats}
use property_search.Score.{FloatOps}
use property_search.Fetch.{ErrorKind}
use property_search.Store.{Action, Error, ok, tick, fetch_failed, parse_failed, raise, pure}

-- A fetched page: its status, and its cards, `none` where goquery cannot read it.
pub data Page : Type 0 where
  page : ℕ → Option (List Card) → Page
  broken : ErrorKind → Page

pub record Outside : Type 0 where
  pub net : UrlOps
  pub casing : Casing
  pub floats : FloatOps
  pub float_parser : FloatParser
  pub pages : ℕ → Text → Page
  pub describe : Error → Text

-- A fetch is a step of the world.
abbrev pub fetch_page : Outside → Text → Action Page
fetch_page o url w = (ok (o.pages w.step url), tick w)

-- A page that was read: its status, listings and counters.
pub record Parsed : Type 0 where
  pub status : ℕ
  pub listings : List Listing
  pub stats : Stats

abbrev parsed : Outside → Text → ℕ → List Card → Parsed
parsed o url status cards =
    let (ls, st) = parse_with_stats o.net o.casing o.float_parser cards url in
    record { status = status; listings = ls; stats = st }

-- `Fetch` and `ParseWithStats`, the errors of both passed on.
abbrev pub read_page : Outside → Text → Page → Action Parsed
read_page o url (broken kind) = raise fetch_failed
read_page o url (page status none) = raise parse_failed
read_page o url (page status (some cards)) = pure (parsed o url status cards)

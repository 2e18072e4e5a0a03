-- ===== src/Digest/Runner.antt =====
-- `indexSearch`, `sendUndelivered` and `RunForUser`.
pub mod Sends
pub mod Ranking
pub mod Indexing
pub mod Once
pub mod Room
pub mod Shows
pub mod Cycle
use property_search.Prelude.{
  ℕ, zero, suc, Text, Bool, true, false, not, ◌&&◌, ◌+◌, ◌==◌, ◌++◌, List, [], ◌∷◌, map, Option,
  none, some, ltb, leb, if◌then◌else◌, codes, itoa, length, sort_stable,
}
use property_search.Model.{Float, Listing, Delivery, snapshot}
use property_search.Store.{
  World, Action, Error, Event, Result, ok, err, sent, listing_sent, nothing_fetched, raise, pure,
  attempt, canceled, call_api, ◌>>=◌, ◌>>◌,
}
use property_search.Repo.Searches.{SearchUrl, list_valid_search_urls, update_search_url_stats}
use property_search.Repo.Listings.{
  Candidate, candidates, upsert_listing, link_listing_source, count_listing_sources,
  linked_listing_ids,
}
use property_search.Repo.Deliveries.{Sending, mark_delivered, baseline_deliveries}
use property_search.Score.{Weights, Reason, load, extract, score, reasons}
use property_search.Outside.{Outside, Parsed, fetch_page, read_page}

-- The loop of `indexSearch` over the listings of the page; `rank` is the position of the first.
unfoldable pub index_listings : ℕ → ℕ → List Listing → Action (Unit {0})
index_listings search rank [] = pure tt
index_listings search rank (l ∷ ls) = do
  id ← upsert_listing (record { item = l; recency_rank = rank })
  link_listing_source id search
  index_listings search (rank + 1) ls

abbrev pub is_empty_list {ℓ} : {A : Type ℓ} → List A → Bool
is_empty_list [] = true
is_empty_list (_ ∷ _) = false

-- The first results of a search are marked as seen.
unfoldable pub baseline_search : ℕ → ℕ → Action (Unit {0})
baseline_search user search = do
  ids ← linked_listing_ids search
  baseline_deliveries user ids
  pure tt

-- What `indexSearch` does with a page that was read.
unfoldable pub store_page : ℕ → ℕ → ℕ → Parsed → Action (Unit {0})
unfolding index_listings baseline_search
store_page user search sources_before p = do
  attempt (update_search_url_stats search p.status p.stats.cards)
  index_listings search 1 p.listings
  if sources_before == 0 && not (is_empty_list p.listings)
      then baseline_search user search
      else pure tt

-- `indexSearch`
unfoldable pub index_search : Outside → ℕ → SearchUrl → Action (Unit {0})
unfolding store_page
index_search o user s = do
  sources_before ← count_listing_sources s.id
  answer ← fetch_page o s.url
  p ← read_page o s.url answer
  store_page user s.id sources_before p

-- How a cycle ended: what it sent, and the error that ended it.
pub record Ran : Type 0 where
  pub sent : ℕ
  pub failure : Option Error

abbrev pub ended : ℕ → Option Error → Action Ran
ended n e = pure (record { sent = n; failure = e })

pub record Ranked : Type 0 where
  pub listing_id : ℕ
  pub item : Listing
  pub score : Float
  pub reasons : List Text

abbrev max_reasons_on_card : ℕ
max_reasons_on_card = 2

unfoldable pub rank_candidate : Outside → Weights → Candidate → Ranked
rank_candidate o w c =
    let features = extract o.floats o.casing c.item in
    record {
      listing_id = c.listing_id;
      item = c.item;
      score = (score o.floats w features).0;
      reasons = map (λ (r : Reason). r.text) (reasons o.floats w features max_reasons_on_card);
    }

-- The stable sort, highest score first.
unfoldable pub rank : Outside → Weights → List Candidate → List Ranked
unfolding rank_candidate
rank o w cs =
    sort_stable (λ (a b : Ranked). o.floats.lt b.score a.score) (map (rank_candidate o w) cs)

-- `rankHeader`
unfoldable pub rank_header : ℕ → ℕ → Text
rank_header position total =
    if leb total 1
    then codes "Hoy"
    else codes "#" ++ (itoa position ++ (codes " de " ++ (itoa total ++ codes " hoy")))

abbrev pub card : ℕ → ℕ → Ranked → Delivery
card position total r = record {
  listing_id = r.listing_id;
  item = r.item;
  header = rank_header position total;
  reasons = r.reasons;
}

-- The arguments of `MarkDelivered` after a send, at a position.
abbrev pub sending : ℕ → Ranked → Sending
sending position r = record {
  message_id = 0;
  position = position;
  score = some r.score;
  status = sent;
  features = snapshot r.item;
}

-- `MarkDelivered` after a send.
abbrev pub record_send : ℕ → ℕ → Ranked → Action (Unit {0})
record_send user position r = mark_delivered user r.listing_id (sending position r)

-- The loop of `sendUndelivered`: position `i + 1` of `total`, with `n` sent so far.
unfoldable pub send_each : ℕ → ℕ → ℕ → ℕ → ℕ → List Ranked → Action Ran
send_each user chat total i n [] = ended n none
send_each user chat total i n (r ∷ rs) = do
  alive ← attempt canceled
  elim alive [
    | err e ↦ ended n (some e)
    | ok _ ↦ (do
      notified ← attempt (call_api (listing_sent chat (card (i + 1) total r)))
      elim notified [
        | err e ↦ send_each user chat total (i + 1) n rs
        | ok _ ↦ (do
          recorded ← attempt (record_send user (i + 1) r)
          elim recorded [
            | err e ↦ ended n (some e)
            | ok _ ↦ send_each user chat total (i + 1) (n + 1) rs
          ])
      ])
  ]

-- `limit`: 0 means no cap, and reads as 1000.
abbrev pub run_limit : ℕ → ℕ
run_limit max_per_run = if max_per_run == 0 then 1000 else max_per_run

-- An action whose error ends the cycle with nothing sent.
abbrev pub or_end : Result Ran → Action Ran
or_end (ok r) = pure r
or_end (err e) = ended 0 (some e)

unfoldable pub send_pending : Outside → ℕ → ℕ → ℕ → Action Ran
unfolding send_each rank
send_pending o max_per_run user chat = do
  cs ← candidates user (run_limit max_per_run)
  w ← load user
  let ranked = rank o w cs
  send_each user chat (length ranked) 0 0 ranked

-- `sendUndelivered`
unfoldable pub send_undelivered : Outside → ℕ → ℕ → ℕ → Action Ran
unfolding send_pending
send_undelivered o max_per_run user chat = do
  r ← attempt (send_pending o max_per_run user chat)
  or_end r

abbrev pub counted : Result (Unit {0}) → ℕ
counted (ok _) = 1
counted (err _) = 0

-- The searches of a user: how many could be indexed.
unfoldable pub index_all : Outside → ℕ → List SearchUrl → Action ℕ
unfolding index_search
index_all o user [] = pure 0
index_all o user (s ∷ ss) = do
  r ← attempt (index_search o user s)
  n ← index_all o user ss
  pure (counted r + n)

abbrev pub run_searches : Outside → ℕ → ℕ → ℕ → List SearchUrl → Action Ran
run_searches o max_per_run user chat [] = ended 0 none
run_searches o max_per_run user chat (s ∷ ss) = do
  fetched ← index_all o user (s ∷ ss)
  canceled
  if fetched == 0 then raise nothing_fetched else send_undelivered o max_per_run user chat

unfoldable pub run_locked : Outside → ℕ → ℕ → ℕ → Action Ran
unfolding index_all send_undelivered
run_locked o max_per_run user chat = do
  searches ← list_valid_search_urls user
  run_searches o max_per_run user chat searches

-- `RunForUser`
unfoldable pub run_for_user : Outside → ℕ → ℕ → ℕ → Action Ran
unfolding run_locked
run_for_user o max_per_run user chat = do r ← attempt (run_locked o max_per_run user chat); or_end r

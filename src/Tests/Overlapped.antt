-- ===== src/Tests/Overlapped.antt =====
-- Cycles of the sample user, alone and two at once.
use property_search.Prelude.{
  ℕ, ◌+◌, ◌≤◌, ◌≡◌, refl, true, false, [], ◌∷◌, some, arith, length, ap, sort_stable, count, ◌==◌,
}
use property_search.Store.{ok}
use property_search.Repo.Listings.{select_candidates, candidate}
use property_search.Repo.Deliveries.{upsert_delivery}
use property_search.Outside.{Outside, page}
use property_search.Score.{new_weights}
use property_search.Digest.Runner.{sending, Ran, Ranked, rank, rank_candidate, run_for_user}
use property_search.Digest.Runner.Indexing.{IsKeyed}
use property_search.Digest.Runner.Once.{cards}
use property_search.Digest.Runner.Room.{room}
use property_search.Digest.Runner.Cycle.{failures, run_for_user-sends_once}
use property_search.Digest.Overlapping.{
  Call, waiting, looping, holds, System, Reach, here, next, locks, reads, sends, marks, ends,
}
use property_search.Digest.Overlapping.Budget.{is_card_to}
use property_search.Digest.Overlapping.Once.{Reach-sent_once}
use property_search.Tests.Samples.{world, db, listing_row}
use property_search.Tests.Chatted.{outside}

-- A portal that answers with a page without cards.
abbrev pub online : Outside
online = record outside { pages = λ n url. page 200 (some []) }

db-IsKeyed : IsKeyed db
db-IsKeyed item = ground arith

run_for_user-sends_once_example :
    let w' = (run_for_user online 1 7 70 world).1 in
    (r : Ran) × ((run_for_user online 1 7 70 world).0 ≡ ok r)
    × (length w'.log ≤ 0 + 1)
    × (cards 4 w'.log ≤ 0 + 1)
    × (room 7 4 w'.db ≤ 1)
    × (cards 4 w'.log + room 7 4 w'.db ≤ 0 + 1 + failures r)
    × IsKeyed w'.db
run_for_user-sends_once_example = run_for_user-sends_once online 1 7 70 4 world db-IsKeyed

-- Two cycles of the user.
abbrev two_cycles : ℕ → Call
two_cycles i = record { user = 7; chat = 70 }

abbrev asleep : System
asleep = record { db = db; log = []; lost = 0; phase = λ i. waiting }

nobody : (j : ℕ) → holds waiting ≡ true → ((two_cycles j).user == 7) ≡ false
nobody j h = ground arith

abbrev fourth : Ranked
fourth = rank_candidate online (new_weights 0) (candidate (listing_row 4 []))

read_one : rank online (new_weights 0) (select_candidates 7 1 db) ≡ fourth ∷ []
unfolding rank select_candidates sort_stable
read_one = refl

recorded : (upsert_delivery 7 fourth.listing_id 500 (sending 1 fourth) db).0 ≡ ok tt
unfolding upsert_delivery rank_candidate
recorded = refl

-- The first one sends the new listing and records it, and ends.
abbrev one_sent : (t : System) × Reach online 1 two_cycles asleep t
one_sent = (
  _,
  next
      (next
        (next (next (next here (locks 0 refl nobody)) (reads 0 1 (new_weights 0) refl))
          (sends 0 0 1 fourth [] (ap (looping 0 1) read_one)))
        (marks 0 0 1 500 fourth [] refl recorded))
      (ends 0 refl),
)

Reach-sent_once_example : count (is_card_to 70 4) one_sent.0.log ≤ 0 + 1 + one_sent.0.lost
Reach-sent_once_example =
    Reach-sent_once online 1 two_cycles 7 70 4 asleep one_sent.0 (λ j h. refl) (λ i. refl) refl
      db-IsKeyed one_sent.1

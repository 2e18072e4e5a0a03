-- ===== src/Tests/Chatted.antt =====
-- The theorems about the chat, the poller and the cycle at concrete runs.
use property_search.Prelude.{
  ℕ, ◌+◌, ◌-◌, ◌*◌, ◌≡◌, refl, true, false, List, [], ◌∷◌, none, some, pos, arith, codes, length,
  ltb, if◌then◌else◌, map, count, IsSorted, text_eq, ascii_casing, parse_int, trim_prefix, ◌==◌,
}
use property_search.Store.{Action, driver, ok, err}
use property_search.Repo.Listings.{Candidate}
use property_search.Model.{snapshot}
use property_search.Repo.Weights.{TrainingSample}
use property_search.Score.{FloatOps, new_weights}
use property_search.Outside.{Outside, broken}
use property_search.Fetch.{transport}
use property_search.Digest.{Ranked, send_each, rank, rank_candidate}
use property_search.Digest.Runner.Sends.{CountedTo, send_each-counted}
use property_search.Digest.Runner.Ranking.{rank-IsSorted}
use property_search.Chat.Updates.{CallbackQuery}
use property_search.Chat.Ratings.{callback_listing, handle_callback}
use property_search.Chat.Ratings.Guards.{handle_callback-keeps_rating}
use property_search.Chat.Search.{granted, wait, claim_search_run, last_search_of, search_cooldown}
use property_search.Chat.Search.Cooldown.{claim_search_run-hourly}
use property_search.Chat.Poller.{Progress, handle_batch}
use property_search.Chat.Poller.Offset.{GaveUp, handle_batch-gives_up}
use property_search.Repo.Searches.Limits.{WithinLimits}
use property_search.Chat.Onboarding.{handle_conversation_input}
use property_search.Chat.Onboarding.Limits.{handle_conversation_input-WithinLimits}
use property_search.Tests.Samples.{db-WithinLimits, world, db, flat}

abbrev press_down : CallbackQuery
press_down = record {
  id = codes "q1";
  sender = some 7;
  message = some (record {
    message_id = 12;
    sender = none;
    chat = some (record { id = 70; kind = codes "private" });
    text = [];
    caption = codes "Depto";
  });
  payload = codes "d:3";
}

handle_callback-keeps_rating_example : (handle_callback (λ u c i w. w) press_down world).1.db ≡ db
unfolding callback_listing parse_int trim_prefix
handle_callback-keeps_rating_example =
    handle_callback-keeps_rating (λ u c i w. w) press_down 7 3 world refl refl refl

claim_search_run-hourly_example :
    let m = (claim_search_run 7 100 []).1 in
    ((claim_search_run 7 200 m).0
      ≡ (if ltb 200 (100 + search_cooldown) then wait (100 + search_cooldown - 200) else granted))
    × (last_search_of 7 m ≡ some 100)
    × (last_search_of 7 (claim_search_run 7 200 m).1
        ≡ (if ltb 200 (100 + search_cooldown) then some 100 else some 200))
    × (last_search_of 8 m ≡ none)
unfolding claim_search_run
claim_search_run-hourly_example = claim_search_run-hourly 7 8 100 200 [] (omega arith) refl refl

-- A handler that fails on the update 5.
abbrev handler : ℕ → Action (Unit {0})
handler n w = (if n == 5 then err driver else ok tt, w)

abbrev twice_failed : Progress
twice_failed = record { offset = 4; failures = 2; failing_id = 5 }

handle_batch-gives_up_example :
    GaveUp
      (λ u. u)
      handler
      5
      (6 ∷ [])
      world
      (handle_batch (λ u. u) handler (5 ∷ 6 ∷ []) twice_failed world)
handle_batch-gives_up_example =
    handle_batch-gives_up (λ u. u) handler 5 (6 ∷ []) twice_failed world driver (λ v w. omega arith)
      refl refl refl refl

abbrev ranked : ℕ → Ranked
ranked item = record { listing_id = item; item = flat; score = 0; reasons = [] }

send_each-counted_example :
    CountedTo 7 70 2 0 2 world (send_each 7 70 2 0 0 (ranked 3 ∷ ranked 4 ∷ []) world)
send_each-counted_example = send_each-counted 7 70 2 0 0 (ranked 3 ∷ ranked 4 ∷ []) world

abbrev pub whole_numbers : FloatOps
whole_numbers = record {
  decimal = λ m k. m;
  of_int = λ n. 0;
  add = λ a b. a + b;
  sub = λ a b. a - b;
  mul = λ a b. a * b;
  div = λ a b. a;
  log = λ a. a;
  floor = λ a. a;
  abs = λ a. a;
  lt = ltb;
  eq = λ a b. false;
  to_int = λ a. pos a;
  format_rounded = λ a. [];
}

abbrev pub outside : Outside
outside = record {
  net = record {
    parse = λ t. none;
    resolve_reference = λ base ref. base;
    hostname = λ h. h;
    render = λ x. [];
    query = λ t. [];
    encode = λ q. [];
    equal_fold = text_eq;
  };
  casing = ascii_casing;
  floats = whole_numbers;
  float_parser = record { parse_float = λ t. none; below_min = λ f. false; above_max = λ f. false };
  pages = λ n url. broken transport;
  describe = λ e. [];
}

abbrev offers : List Candidate
offers = record { listing_id = 3; item = flat } ∷ record { listing_id = 4; item = flat } ∷ []

rank-IsSorted_example :
    IsSorted (λ (a b : Ranked). ltb b.score a.score) (rank outside (new_weights 0) offers)
    × (count (λ r. true) (rank outside (new_weights 0) offers)
        ≡ count (λ r. true) (map (rank_candidate outside (new_weights 0)) offers))
    × (length (rank outside (new_weights 0) offers) ≡ 2)
rank-IsSorted_example =
    rank-IsSorted outside (new_weights 0) offers (λ r. true) (λ a b h. ground arith)

handle_conversation_input-WithinLimits_example :
    WithinLimits
      (handle_conversation_input outside 7 70
        (codes "https://www.zonaprop.com.ar/b.html")
        world).1.db
handle_conversation_input-WithinLimits_example =
    handle_conversation_input-WithinLimits outside 7 70 (codes "https://www.zonaprop.com.ar/b.html")
      world db-WithinLimits

abbrev samples : List TrainingSample
samples =
    record { label = 1; snapshot = snapshot flat }
    ∷ record { label = 0; snapshot = snapshot flat }
    ∷ []

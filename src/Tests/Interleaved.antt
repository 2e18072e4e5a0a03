-- ===== src/Tests/Interleaved.antt =====
-- The theorems about calls at once, the lease and the redaction at concrete runs.
use property_search.Prelude.{
  ℕ, ◌≡◌, refl, Text, true, false, List, [], ◌∷◌, none, some, arith, codes, All, ◌==◌,
  if◌then◌else◌, any,
}
use property_search.Store.{Action, World, ok, pure, Keeps-pure}
use property_search.Repo.Searches.{same_url}
use property_search.Repo.Searches.Limits.{WithinLimits}
use property_search.Repo.Searches.Concurrent.{
  Request, waiting, holds, System, Reach, here, next, locks, counts, looks, inserts, aborts,
  deletes,
}
use property_search.Repo.Searches.Concurrent.Limited.{Reach-WithinLimits}
use property_search.Repo.Ratings.{take_lease}
use property_search.Chat.Poller.{Progress, poll}
use property_search.Chat.Poller.Lapse.{poll-lease_lapses}
use property_search.Redact.{redact_text}
use property_search.Redact.Clean.{leaks, redact_text-clean}
use property_search.Tests.Samples.{db-WithinLimits, db, world}

-- Two calls of the same user, for two pages.
abbrev two_calls : ℕ → Request
two_calls i = record {
  user = 7;
  label = if i == 0 then codes "sur" else codes "oeste";
  raw_url = codes "https://www.zonaprop.com.ar/b.html";
  norm = if i == 0 then codes "b" else codes "c";
}

abbrev idle : System
idle = record { db = db; phase = λ i. waiting }

none_held : (j : ℕ) → holds waiting ≡ true → ((two_calls j).user == (two_calls 0).user) ≡ false
none_held j h = ground arith

-- The first one runs to its commit, the second one gets the row and is lost.
abbrev both : (t : System) × Reach two_calls idle t
both = (
  _,
  next
      (next
        (next
          (next (next (next here (locks 0 refl refl none_held)) (counts 0 refl))
            (deletes (λ r. true)))
          (looks 0 1 refl))
        (inserts 0 1 (any (same_url 7 (codes "b")) db.search_urls) world refl refl))
      (aborts 1),
)

Reach-WithinLimits_example : WithinLimits both.0.db
Reach-WithinLimits_example =
    Reach-WithinLimits two_calls idle both.0 (λ i. refl) db-WithinLimits both.1

abbrev leased : World
leased = record world {
  db = record db {
    bot_state = record {
      last_update_id = 4;
      poll_lease_holder = some (codes "first:1");
      poll_lease_expires_at = some 5000;
    };
  };
}

abbrev ignore : ℕ → Action (Unit {0})
ignore u = pure tt

abbrev started : Progress
started = record { offset = 4; failures = 0; failing_id = 0 }

poll-lease_lapses_example :
    (take_lease
      (codes "second:2")
      5001
      (poll (λ u. u) ignore (some (5 ∷ 6 ∷ []) ∷ none ∷ []) started leased).1.db).0
    ≡ ok true
poll-lease_lapses_example =
    poll-lease_lapses (λ u. u) ignore (codes "first:1") 5000 (λ u. Keeps-pure tt)
      (some (5 ∷ 6 ∷ []) ∷ none ∷ []) started leased (refl, refl) (codes "second:2") 5001
      (omega arith)

abbrev secrets : List Text
secrets = codes "123:SECRET" ∷ [] ∷ codes "SEC" ∷ []

redact_text-clean_example :
    All
      (λ q. leaks (redact_text (codes "Post /bot123:SECRET/send: refused") secrets) q ≡ false)
      secrets
redact_text-clean_example =
    redact_text-clean (codes "Post /bot123:SECRET/send: refused") secrets
      (ground arith, (tt, (ground arith, tt)))

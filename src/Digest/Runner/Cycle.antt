-- ===== src/Digest/Runner/Cycle.antt =====
-- What a whole cycle of a user sends, against what was delivered to the user before it and after it.
use property_search.Prelude.{
  ℕ, ◌+◌, ◌≤◌, ◌≡◌, refl, arith, List, [], ◌∷◌, length, count, ◌==◌, none, some, Bool-cases,
  Option-cases, inl, inr,
}
use property_search.Store.{
  World, Result, ok, err, Action, tick, nothing_fetched, driver, follow, canceled,
}
use property_search.Store.Silent.{IsPreorder, Silent, Silent-query_at}
use property_search.Repo.Searches.{
  SearchUrl, list_valid_search_urls, select_searches, is_valid_status,
}
use property_search.Repo.Listings.{Candidate, candidates, select_candidates}
use property_search.Repo.Listings.Candidates.{select_candidates-fresh}
use property_search.Score.{Weights, load}
use property_search.Outside.{Outside}
use property_search.Digest.Runner.{
  Ran, rank, send_each, send_pending, send_undelivered, index_all, or_end, run_limit, run_searches,
  run_locked, run_for_user,
}
use property_search.Digest.Runner.Indexing.{IsKeyed, Grows, Grows-IsPreorder, index_all-Silent}
use property_search.Digest.Runner.Once.{Shown, cards, send_each-Shown}
use property_search.Digest.Runner.Room.{
  room, room-le, select_candidates-one, count-rank, length-rank,
}
use property_search.Digest.Runner.Shows.{
  Shows, Shown-quiet, Shows-bind, Shows-or_end, Shows-done, Shows-raise, Silent-canceled,
  Silent-load, Shows-if,
}

-- One for a cycle that ended with an error.
abbrev pub failures : Ran → ℕ
failures r = elim r.failure [ none ↦ 0 | some _ ↦ 1 ]

module _ (o : Outside) (max_per_run user chat item : ℕ) where
  abbrev most : ℕ
  most = run_limit max_per_run

  -- The sending of candidates that were read from a database.
  sends_ranked : List Candidate → Weights → Action Ran
  sends_ranked cs v = send_each user chat (length (rank o v cs)) 0 0 (rank o v cs)

  sends_ranked-Shown :
      (w : World) (cs : List Candidate)
      → count (λ (c : Candidate). c.listing_id == item) cs ≤ room user item w.db
      → length cs ≤ most
      → (x : Result Weights × World) → x.1.log ≡ w.log
      → Grows user item w.db x.1.db
      → Shown user item most (room user item w.db) w (follow x (sends_ranked cs))
  unfolding sends_ranked
  sends_ranked-Shown w cs c l (err e, w') same g = Shown-quiet user item most w (err e, w') same g
  sends_ranked-Shown w cs c l (ok v, w') same g =
      let rs = rank o v cs in
      let s = send_each-Shown user chat (length rs) item 0 0 rs w' in
      record {
        grown = ground (arith, same, s.grown);
        few = ground (arith, same, s.few, count-rank user item o v cs);
        short = ground (arith, same, s.short, length-rank user item o v cs);
        kept = (Grows-IsPreorder user item).trans w.db w'.db (sends_ranked cs v w').1.db g s.kept;
        shown = λ r e f u. ground (arith, same, s.shown r e f u);
      }

  send_pending-Shows : Shows user item most (send_pending o max_per_run user chat)
  unfolding send_pending candidates sends_ranked
  send_pending-Shows = record {
    at = λ w h. elim (Bool-cases (w.env.db_fails w.step)) [
      | inl e ↦ rw e (Shown-quiet user item most w (err driver, tick w) refl (pre.stay w.db))
      | inr e ↦ rw e (
          sends_ranked-Shown w (select_candidates user most w.db)
            (select_candidates-one user item most w.db h) (select_candidates-fresh user most w.db).1
            (load user (tick w)) (q.log (tick w)) (q.db (tick w)))
    ];
  }
    where
      q : Silent (Grows user item) (load user)
      q = Silent-load user item most

      pre : IsPreorder (Grows user item)
      pre = Grows-IsPreorder user item

  send_undelivered-Shows : Shows user item most (send_undelivered o max_per_run user chat)
  unfolding send_undelivered
  send_undelivered-Shows = Shows-or_end user item most _ send_pending-Shows

  run_searches-Shows :
      (ss : List SearchUrl) → Shows user item most (run_searches o max_per_run user chat ss)
  run_searches-Shows [] = Shows-done user item most
  run_searches-Shows (s ∷ ss) =
      Shows-bind user item most (index_all o user (s ∷ ss)) _
        (index_all-Silent user item o user (s ∷ ss))
        (λ n. Shows-bind user item most canceled _ (Silent-canceled user item most) (λ _.
          Shows-if user item most (n == 0) _ _ (Shows-raise user item most nothing_fetched)
            send_undelivered-Shows))

  run_for_user-Shows : Shows user item most (run_for_user o max_per_run user chat)
  unfolding run_for_user run_locked list_valid_search_urls
  run_for_user-Shows = Shows-or_end user item most _ (
      Shows-bind user item most (list_valid_search_urls user) _
        (Silent-query_at (Grows-IsPreorder user item)
          (λ w. select_searches w.env.collate user (λ r. is_valid_status r.validation_status)))
        run_searches-Shows)

  -- What `RunForUser` returns: it never fails, an error is part of the result.
  run_for_user-ok : (w : World) → (r : Ran) × ((run_for_user o max_per_run user chat w).0 ≡ ok r)
  unfolding run_for_user
  run_for_user-ok w = go (run_locked o max_per_run user chat w)
    where
      go : (x : Result Ran × World) → (r : Ran) × ((or_end x.0 x.1).0 ≡ ok r)
      go (ok r, w') = (r, refl)
      go (err e, w') = (record { sent = 0; failure = some e }, refl)

  -- A cycle of a user, whatever calls fail in it, from a database whose listings have distinct ids: it
  -- returns; it sends at most as many cards as the limit, and each listing at most as often as there is
  -- room for it: once, or not at all if it was delivered to the user before. Room is never won back, and
  -- a listing that was sent has none left, unless the cycle ended with an error. The ids stay distinct.
  pub run_for_user-sends_once :
      (w : World)
      → IsKeyed w.db
      → let w' = (run_for_user o max_per_run user chat w).1 in
        (r : Ran) × ((run_for_user o max_per_run user chat w).0 ≡ ok r)
        × (length w'.log ≤ length w.log + run_limit max_per_run)
        × (cards item w'.log ≤ cards item w.log + room user item w.db)
        × (room user item w'.db ≤ room user item w.db)
        × (cards item w'.log + room user item w'.db
            ≤ cards item w.log + room user item w.db + failures r)
        × IsKeyed w'.db
  run_for_user-sends_once w h =
      let s = run_for_user-Shows.at w h in
      let (r, e) = run_for_user-ok w in
      let g = room-le user item w.db (run_for_user o max_per_run user chat w).1.db s.kept in
      (r, e, s.short, s.few, g, spent r e, s.kept.1 h)
    where
      spent :
          (r : Ran)
          → (run_for_user o max_per_run user chat w).0 ≡ ok r
          → let w' = (run_for_user o max_per_run user chat w).1 in
            cards item w'.log + room user item w'.db
            ≤ cards item w.log + room user item w.db + failures r
      spent r e =
          let s = run_for_user-Shows.at w h in
          let d = (run_for_user o max_per_run user chat w).1.db in
          elim (Option-cases r.failure) [
            | inl f ↦ rw f (ground (arith, s.few, s.shown r e f, s.kept.0))
            | inr (x, f) ↦ rw f (ground (arith, s.few))
          ]

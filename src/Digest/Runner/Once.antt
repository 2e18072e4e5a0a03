-- ===== src/Digest/Runner/Once.antt =====
-- What a whole cycle of a user sends, against what was delivered to the user before it and after it.
use property_search.Prelude.{
  ℕ, ◌+◌, ◌≤◌, ◌≡◌, refl, Bool, true, false, arith, List, [], ◌∷◌, ◌++◌, any, any-snoc, update,
  length, length-append, count, count-snoc, ◌==◌, none, Bool-cases, inl, inr,
}
use property_search.Store.{
  World, Event, listing_sent, driver, Result, ok, err, DeliveryRow, Db, tick,
}
use property_search.Store.Silent.{Silent, Silent-exec_result, Silent-now}
use property_search.Repo.Listings.{delivered, is_delivery}
use property_search.Repo.Deliveries.{Sending, mark_delivered, upsert_delivery, resend, new_delivery}
use property_search.Repo.Deliveries.Once.{upsert_delivery-delivered}
use property_search.Digest.Runner.{Ranked, Ran, card, sending, record_send, send_each}
use property_search.Digest.Runner.Indexing.{Grows, Grows-IsPreorder}

abbrev pub is_card : ℕ → Event → Bool
is_card item (listing_sent chat d) = d.listing_id == item
is_card item _ = false

-- How often a listing was sent.
abbrev pub cards : ℕ → List Event → ℕ
cards item log = count (is_card item) log

abbrev pub is_ranked : ℕ → Ranked → Bool
is_ranked item r = r.listing_id == item

module _ (user item : ℕ) where
  any-resend :
      (owner listing at : ℕ) (s : Sending) (d : Db)
      → any (is_delivery user item) (update (is_delivery owner listing) (resend at s) d.deliveries)
        ≡ any (is_delivery user item) d.deliveries
  any-resend owner listing at s d = go d.deliveries
    where
      go :
          (xs : List DeliveryRow)
          → any (is_delivery user item) (update (is_delivery owner listing) (resend at s) xs)
            ≡ any (is_delivery user item) xs
      go [] = refl
      go (x ∷ xs) = ground (arith, go xs)

  pub upsert_delivery-Grows :
      (owner listing at : ℕ) (s : Sending) (d : Db)
      → Grows user item d (upsert_delivery owner listing at s d).1
  unfolding upsert_delivery
  upsert_delivery-Grows owner listing at s d = elim (Bool-cases (delivered owner listing d)) [
    | inl e ↦ rw (e, upsert_delivery) (λ h. rw (any-resend owner listing at s d) h, λ k. k)
    | inr e ↦ (
      λ h.
          ground (
            arith,
            any-snoc (is_delivery user item) d.deliveries (new_delivery owner listing at s),
          ),
      λ k x. ground (arith, k x),
    )
  ]

  record_send-Silent :
      (position : ℕ) (r : Ranked) → Silent (Grows user item) (record_send user position r)
  unfolding mark_delivered
  record_send-Silent position r = Silent-now (Grows-IsPreorder user item) _ (λ at.
      Silent-exec_result (Grows-IsPreorder user item)
        (upsert_delivery user r.listing_id at (sending position r))
        (upsert_delivery-Grows user r.listing_id at (sending position r)))

-- A send that was recorded without an error is recorded.
record_send-delivered :
    (user position : ℕ) (r : Ranked) (w : World) (a : Unit {0})
    → (record_send user position r w).0 ≡ ok a
    → delivered user r.listing_id (record_send user position r w).1.db ≡ true
unfolding mark_delivered
record_send-delivered user position r w a h = elim (Bool-cases (w.env.db_fails w.step)) [
  | inl e ↦ absurd (refused (rw e at h))
  | inr e ↦ rw e (
      upsert_delivery-delivered user r.listing_id (w.env.clock w.step) (sending position r) w.db a
        (rw e at h))
]
  where
    refused : ◌≡◌ {A = Result (Unit {0})} (err driver) (ok a) → ⊥
    refused h = cc

-- The worlds after a message that was not sent, and after one that was.
abbrev unsent : World → World
unsent w = tick (tick w)

abbrev after_send : ℕ → ℕ → ℕ → Ranked → World → World
after_send chat total i x w = record (tick (tick w)) {
  log = w.log ++ listing_sent chat (card (i + 1) total x) ∷ [];
}

-- What a part of a cycle did: it sent the listing at most `k` times, not more than `most` cards, and
-- kept what was delivered; where it ended without an error and the listing is still undelivered, it
-- did not send it.
pub record Shown (user item most k : ℕ) (w : World) (x : Result Ran × World) : Type 0 where
  pub grown : cards item w.log ≤ cards item x.1.log
  pub few : cards item x.1.log ≤ cards item w.log + k
  pub short : length x.1.log ≤ length w.log + most
  pub kept : Grows user item w.db x.1.db
  pub shown :
      (r : Ran)
      → x.0 ≡ ok r
      → r.failure ≡ none
      → delivered user item x.1.db ≡ false
      → cards item x.1.log ≤ cards item w.log

module _ (user chat total item : ℕ) where
  pub send_each-Shown :
      (i n : ℕ) (rs : List Ranked) (w : World)
      → Shown user item
          (length rs)
          (count (is_ranked item) rs)
          w
          (send_each user chat total i n rs w)
  unfolding send_each
  send_each-Shown i n [] w = record {
    grown = omega arith;
    few = omega arith;
    short = omega arith;
    kept = (λ h. h, λ h. h);
    shown = λ r e f u. omega arith;
  }
  send_each-Shown i n (x ∷ rs) w =
      let w2 = after_send chat total i x w in
      let w3 = (record_send user (i + 1) x w2).1 in
      let ih = send_each-Shown (i + 1) n rs (unsent w) in
      let ih' = send_each-Shown (i + 1) (n + 1) rs w3 in
      let s = record_send-Silent user item (i + 1) x in
      let added = count-snoc (is_card item) w.log (listing_sent chat (card (i + 1) total x)) in
      record {
        grown = ground (arith, ih.grown, ih'.grown, s.log w2, added);
        few = ground (arith, ih.few, ih'.few, s.log w2, added);
        short = ground (
          arith,
          ih.short,
          ih'.short,
          s.log w2,
          length-append w.log (listing_sent chat (card (i + 1) total x) ∷ []),
        );
        kept = (
          λ h. ground (arith, ih.kept.0, (s.db w2).0, ih'.kept.0),
          λ k y. ground (arith, k y, ih.kept.1 k y, ih'.kept.1 ((s.db w2).1 k) y, (s.db w2).1 k y),
        );
        shown = λ r e f u. ground (
          arith,
          ih.shown r,
          ih'.shown r,
          ih'.kept.0,
          s.log w2,
          added,
          record_send-delivered user (i + 1) x w2 tt,
        );
      }

-- ===== src/Digest/Runner/Sends.antt =====
-- What a cycle sends against what it counts.
use property_search.Prelude.{
  suc, none, some, ℕ, ◌+◌, ◌≤◌, ◌≡◌, ap, refl, inl, inr, arith, List, [], ◌∷◌, ◌++◌, length,
  length-append, Bool-cases,
}
use property_search.Store.{
  World, listing_sent, Error, Result, ok, err, tick, context_canceled, Result-cases,
}
use property_search.Repo.Deliveries.{mark_delivered}
use property_search.Digest.Runner.{Ranked, Ran, send_each, card, record_send}

record_send-log :
    (user position : ℕ) (x : Ranked) (w : World) → (record_send user position x w).1.log ≡ w.log
unfolding mark_delivered
record_send-log user position x w = elim (Bool-cases (w.env.db_fails w.step)) [
  | inl e ↦ rw e refl
  | inr e ↦ rw e refl
]

module _ (user chat total : ℕ) where
  -- The worlds after a message that was not sent, and after one that was.
  abbrev unsent : World → World
  unsent w = tick (tick w)

  abbrev after_send : ℕ → Ranked → World → World
  after_send i x w = record (tick (tick w)) {
    log = w.log ++ listing_sent chat (card (i + 1) total x) ∷ [];
  }

  -- How the loop ended at a world, having counted from `n` on: without an error or by the end of the
  -- context, with every accepted card counted; or because recording the card of `x` failed, that card
  -- being the one that is not counted.
  pub data Counted (n : ℕ) (w w' : World) (r : Ran) : Type 0 where
    finished : r.failure ≡ none → length w'.log + n ≡ length w.log + r.sent → Counted n w w' r
    interrupted :
        r.failure ≡ some context_canceled
        → length w'.log + n ≡ length w.log + r.sent
        → Counted n w w' r
    unrecorded :
        (x : Ranked) (position : ℕ) (at : World) (e : Error)
        → record_send user position x at ≡ (err e, w')
        → r.failure ≡ some e
        → length w'.log + n ≡ length w.log + r.sent + 1
        → Counted n w w' r

  -- What the loop returns, with what it counted.
  abbrev pub CountedTo : ℕ → ℕ → World → Result Ran × World → Type 0
  CountedTo n most w x =
      (r : Ran) × (x.0 ≡ ok r) × Counted n w x.1 r × (n ≤ r.sent) × (r.sent ≤ n + most)

  Counted-from :
      (n m : ℕ) (w v w' : World) (r : Ran)
      → length v.log + n ≡ length w.log + m
      → Counted m v w' r
      → Counted n w w' r
  Counted-from n m w v w' r same (finished clean e) = finished clean (omega arith)
  Counted-from n m w v w' r same (interrupted why e) = interrupted why (omega arith)
  Counted-from n m w v w' r same (unrecorded x position at e failed why c) =
      unrecorded x position at e failed why (omega arith)

  CountedTo-from :
      (n m most : ℕ) (w v : World) (x : Result Ran × World)
      → length v.log + n ≡ length w.log + m
      → n ≤ m
      → m ≤ n + 1
      → CountedTo m most v x
      → CountedTo n (suc most) w x
  CountedTo-from n m most w v x same le ge (r, e, c, low, high) =
      (r, e, Counted-from n m w v x.1 r same c, omega arith, omega arith)

  -- The loop over the ranked listings always returns, whatever call fails or is interrupted. Where it
  -- ends without an error, or because the context ended, what it adds to the count is the number of
  -- cards that Telegram accepted; otherwise recording an accepted card failed, with the error that the
  -- loop reports, and the count is one less. It is at most the number of listings.
  pub send_each-counted :
      (i n : ℕ) (rs : List Ranked) (w : World)
      → CountedTo n (length rs) w (send_each user chat total i n rs w)
  unfolding send_each
  send_each-counted i n [] w =
      (record { sent = n; failure = none }, refl, finished refl refl, omega arith, omega arith)
  send_each-counted i n (x ∷ rs) w =
      let w2 = after_send i x w in
      elim (Bool-cases (w.env.cancels w.step)) [
        | inl c ↦ rw c (
          record { sent = n; failure = some context_canceled },
          refl,
          interrupted refl refl,
          omega arith,
          omega arith,
        )
        | inr a ↦ elim (Bool-cases (w.env.api_fails (suc w.step))) [
          | inl f ↦
              rw (a, f)
                (CountedTo-from n n (length rs) w (unsent w) _ refl (omega arith) (omega arith)
                  (send_each-counted (i + 1) n rs (unsent w)))
          | inr g ↦ elim (Result-cases (record_send user (i + 1) x w2).0) [
            | inl (u, e) ↦
                rw (a, g, e)
                  (CountedTo-from n (n + 1) (length rs) w (record_send user (i + 1) x w2).1 _
                    one_more (omega arith) (omega arith)
                    (send_each-counted (i + 1) (n + 1) rs (record_send user (i + 1) x w2).1))
            | inr (e, h) ↦
                rw (a, g, h)
                  (
                    record { sent = n; failure = some e },
                    refl,
                    unrecorded x (i + 1) w2 e (ap (λ r. (r, (record_send user (i + 1) x w2).1)) h)
                        refl (omega (arith, one_more)),
                    omega arith,
                    omega arith,
                  )
          ]
        ]
      ]
    where
      one_more :
          length (record_send user (i + 1) x (after_send i x w)).1.log + n ≡ length w.log + (n + 1)
      one_more = omega (
        arith,
        ap length (record_send-log user (i + 1) x (after_send i x w)),
        length-append w.log (listing_sent chat (card (i + 1) total x) ∷ []),
      )

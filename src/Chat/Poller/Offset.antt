-- ===== src/Chat/Poller/Offset.antt =====
-- How the poller moves its offset, and gives up on an update that keeps failing.
use property_search.Prelude.{
  ℕ, ◌≤◌, ◌==◌, any, true, refl, Bool-cases, ◌+◌, ◌<◌, ◌≡◌, ◌⊎◌, inl, inr, false, arith, List, [],
  ◌∷◌, ==_refl,
}
use property_search.Store.{World, Action, Error, Result, driver, ok, err, tick, Result-cases}
use property_search.Repo.Ratings.{advance_update_id, raise_offset}
use property_search.Chat.Poller.{
  Progress, Batch, count_failure, moved_on, done, retry, handle_batch, max_attempts_per_update,
  after_handler,
}

-- The last update of a batch, or what was there before it.
abbrev pub last_id {ℓ} : {U : Type ℓ} → (U → ℕ) → ℕ → List U → ℕ
last_id id_of before [] = before
last_id id_of before (u ∷ us) = last_id id_of (id_of u) us

module _ {U : Type 0} (id_of : U → ℕ) (handle : U → Action (Unit {0})) where
  handle_batch-done :
      (us : List U) (p q : Progress) (w : World)
      → (handle_batch id_of handle us p w).0 ≡ ok (done q)
      → q.offset ≡ last_id id_of p.offset us
  unfolding handle_batch count_failure advance_update_id
  handle_batch-done [] p q w h = ground arith
  handle_batch-done (u ∷ us) p q w h =
      let w1 = (handle u w).1 in
      ground (
        arith,
        handle_batch-done us (moved_on (id_of u) (after_handler id_of handle u p (handle u w).0)) q
            (record (tick w1) { db = raise_offset (id_of u) w1.db }),
      )

  handle_batch-retry :
      (us : List U) (p q : Progress) (w : World)
      → (handle_batch id_of handle us p w).0 ≡ ok (retry q)
      → q.failures < max_attempts_per_update
  unfolding handle_batch count_failure advance_update_id
  handle_batch-retry [] p q w h = ground arith
  handle_batch-retry (u ∷ us) p q w h =
      let w1 = (handle u w).1 in
      ground (
        arith,
        handle_batch-retry us (moved_on (id_of u) (after_handler id_of handle u p (handle u w).0)) q
            (record (tick w1) { db = raise_offset (id_of u) w1.db }),
      )

  -- A batch that was worked off leaves the offset at its last update; one that stopped for a retry has
  -- an update with fewer failures in a row than the maximum.
  pub handle_batch-ending :
      (us : List U) (p q : Progress) (w : World)
      → ((handle_batch id_of handle us p w).0 ≡ ok (done q))
        ⊎ ((handle_batch id_of handle us p w).0 ≡ ok (retry q))
      → (q.offset ≡ last_id id_of p.offset us) ⊎ (q.failures < max_attempts_per_update)
  handle_batch-ending us p q w (inl h) = inl (handle_batch-done us p q w h)
  handle_batch-ending us p q w (inr h) = inr (handle_batch-retry us p q w h)

  -- The offset that is persisted.
  abbrev pub persisted : World → ℕ
  persisted w = w.db.bot_state.last_update_id

  -- How a batch ended that began with no failures: at its last update, at the first failure of one of
  -- its updates, or because an offset could not be persisted.
  pub data Onward (before : ℕ) (us : List U) : Result Batch → Type 0 where
    to_the_end :
        (q : Progress) → q.offset ≡ last_id id_of before us → Onward before us (ok (done q))
    first_failure :
        (q : Progress)
        → q.failures ≡ 1
        → any (λ v. id_of v == q.failing_id) us ≡ true
        → Onward before us (ok (retry q))
    not_persisted : Onward before us (err driver)

  -- A batch after its first update was given up.
  pub record GaveUp (u : U) (us : List U) (w : World) (x : Result Batch × World) : Type 0 where
    pub behind : id_of u ≤ persisted x.1
    pub never_lowered : persisted w ≤ persisted x.1
    pub onward : Onward (id_of u) us x.0
    pub goes_on :
        (w1 : World) × (x
          ≡ handle_batch id_of handle us
              (record { offset = id_of u; failures = 0; failing_id = 0 })
              w1)

  handle_batch-persisted-le :
      ((v : U) (w : World) → persisted w ≤ persisted (handle v w).1)
      → (us : List U) (p : Progress) (w : World)
      → persisted w ≤ persisted (handle_batch id_of handle us p w).1
  unfolding handle_batch count_failure advance_update_id
  handle_batch-persisted-le keeps [] p w = omega arith
  handle_batch-persisted-le keeps (u ∷ us) p w =
      let w1 = (handle u w).1 in
      let q = moved_on (id_of u) (after_handler id_of handle u p (handle u w).0) in
      let w2 = record (tick w1) { db = raise_offset (id_of u) w1.db } in
      let above : persisted w1 ≤ persisted w2 = omega arith in
      ground (arith, keeps u w, above, handle_batch-persisted-le keeps us q w2)

  Onward-behind :
      (u : U) (us : List U) (before : ℕ) (r : Result Batch)
      → Onward (id_of u) us r
      → Onward before (u ∷ us) r
  Onward-behind u us before _ (to_the_end q e) = to_the_end q e
  Onward-behind u us before _ (first_failure q e h) = first_failure q e (ground (arith, h))
  Onward-behind u us before _ not_persisted = not_persisted

  handle_batch-Onward :
      (us : List U) (offset : ℕ) (w : World)
      → Onward offset us
          (handle_batch id_of handle us
            (record { offset = offset; failures = 0; failing_id = 0 })
            w).0
  unfolding handle_batch count_failure advance_update_id
  handle_batch-Onward [] offset w = to_the_end _ refl
  handle_batch-Onward (u ∷ us) offset w =
      let fresh : Progress = record { offset = offset; failures = 0; failing_id = 0 } in
      let w1 = (handle u w).1 in
      let w2 = record (tick w1) { db = raise_offset (id_of u) w1.db } in
      elim (Result-cases (handle u w).0) [
        | inl (a, e) ↦ elim (Bool-cases (w1.env.db_fails w1.step)) [
          | inl f ↦ rw (e, f) not_persisted
          | inr t ↦ rw (e, t) (Onward-behind u us offset _ (handle_batch-Onward us (id_of u) w2))
        ]
        | inr (x, e) ↦ elim (Bool-cases (id_of u == 0)) [
          | inl z ↦ rw (e, z) (first_failure _ refl (ground (arith, z)))
          | inr z ↦ rw (e, z) (first_failure _ refl (ground (arith, ==_refl (id_of u))))
        ]
      ]

  handle_batch-left :
      (u : U) (us : List U) (p : Progress) (w : World) (e : Error)
      → p.failing_id ≡ id_of u
      → p.failures + 1 ≡ max_attempts_per_update
      → (handle u w).0 ≡ err e
      → (handle u w).1.env.db_fails (handle u w).1.step ≡ false
      → handle_batch id_of handle (u ∷ us) p w
        ≡ handle_batch id_of handle us
            (record { offset = id_of u; failures = 0; failing_id = 0 })
            (record (tick ((handle u w).1)) { db = raise_offset (id_of u) (handle u w).1.db })
  unfolding handle_batch count_failure advance_update_id
  handle_batch-left u us p w e same last fails up = ground (arith, ==_refl (id_of u))

  -- An update that fails once more after the last but one attempt is given up: whatever the batch comes
  -- to, the persisted offset is then at least its id and not lower than before, and the rest of the
  -- batch is handled with no failures counted, up to its last update, to the first failure of one of
  -- them, or to an offset that the database does not take, so that no update blocks the ones behind it.
  -- The handlers do not lower the offset, and the offset of the update given up can be persisted.
  pub handle_batch-gives_up :
      (u : U) (us : List U) (p : Progress) (w : World) (e : Error)
      → ((v : U) (w : World) → persisted w ≤ persisted (handle v w).1)
      → p.failing_id ≡ id_of u
      → p.failures + 1 ≡ max_attempts_per_update
      → (handle u w).0 ≡ err e
      → (handle u w).1.env.db_fails (handle u w).1.step ≡ false
      → GaveUp u us w (handle_batch id_of handle (u ∷ us) p w)
  handle_batch-gives_up u us p w e keeps same last fails up =
      let w1 = (handle u w).1 in
      let w2 = record (tick w1) { db = raise_offset (id_of u) w1.db } in
      let same_batch = handle_batch-left u us p w e same last fails up in
      let onwards =
        handle_batch-persisted-le keeps us
          (record { offset = id_of u; failures = 0; failing_id = 0 }) w2 in
      let raised : id_of u ≤ persisted w2 = omega arith in
      let above : persisted w1 ≤ persisted w2 = omega arith in
      rw same_batch (record {
        behind = omega (arith, raised, onwards);
        never_lowered = omega (arith, keeps u w, above, onwards);
        onward = handle_batch-Onward us (id_of u) w2;
        goes_on = (w2, refl);
      })

-- ===== src/Chat/Poller/Lapse.antt =====
-- The poll lease while the poller runs.
use property_search.Prelude.{
  ℕ, ◌<◌, ◌≡◌, Text, true, not, ◌&&◌, List, [], ◌∷◌, Option, none, some, arith, ltb, if◌then◌else◌,
  Bool-cases, inl, inr,
}
use property_search.Store.{
  Db, World, Action, Result, ◌>>=◌, ok, err, canceled, attempt, pure, Keeps, Keeps-pure, Keeps-bind,
  Keeps-attempt, Keeps-exec,
}
use property_search.Repo.Ratings.{take_lease, advance_update_id, raise_offset}
use property_search.Chat.Poller.{
  Progress, Batch, done, retry, moved_on, next_poll, while_alive, max_attempts_per_update,
  handle_batch, poll, after_handler, is_ok, progress,
}

-- The lease as a poller has left it.
abbrev pub IsLeased : Text → ℕ → Db → Type 0
IsLeased holder until d =
    (d.bot_state.poll_lease_holder ≡ some holder) × (d.bot_state.poll_lease_expires_at ≡ some until)

module _ (holder : Text) (until : ℕ) where
  advance_update_id-IsLeased : (id : ℕ) → Keeps (IsLeased holder until) (advance_update_id id)
  unfolding advance_update_id
  advance_update_id-IsLeased id = Keeps-exec (raise_offset id) (λ d h. h)

  canceled-IsLeased : Keeps (IsLeased holder until) canceled
  canceled-IsLeased = record {
    at = λ w h. elim (Bool-cases (w.env.cancels w.step)) [ inl e ↦ rw e h | inr e ↦ rw e h ];
  }

module _ {U : Type 0} (id_of : U → ℕ) (handle : U → Action (Unit {0})) (holder : Text)
    (until : ℕ) where
  after_handler-IsLeased :
      (u : U) (p : Progress) (r : Result (Unit {0})) (rest : Action Batch)
      → Keeps (IsLeased holder until) rest
      → Keeps (IsLeased holder until) (
          if not (is_ok id_of handle r)
            && ltb (after_handler id_of handle u p r).failures max_attempts_per_update
          then pure (retry (after_handler id_of handle u p r))
          else (advance_update_id (id_of u) >>= λ _. rest))
  after_handler-IsLeased u p r rest k =
      elim (Bool-cases (
        not (is_ok id_of handle r)
        && ltb (after_handler id_of handle u p r).failures max_attempts_per_update)) [
          | inl e ↦ rw e (Keeps-pure (retry (after_handler id_of handle u p r)))
          | inr e ↦ rw e (
              Keeps-bind (advance_update_id (id_of u)) (λ _. rest)
                (advance_update_id-IsLeased holder until (id_of u)) (λ _. k))
        ]

  handle_batch-IsLeased :
      ((u : U) → Keeps (IsLeased holder until) (handle u))
      → (us : List U) (p : Progress)
      → Keeps (IsLeased holder until) (handle_batch id_of handle us p)
  unfolding handle_batch
  handle_batch-IsLeased keeps [] p = Keeps-pure (done p)
  handle_batch-IsLeased keeps (u ∷ us) p =
      Keeps-bind (attempt (handle u)) _ (Keeps-attempt (handle u) (keeps u)) (λ r.
        after_handler-IsLeased u p r _
          (handle_batch-IsLeased keeps us (moved_on (id_of u) (after_handler id_of handle u p r))))

  next_poll-IsLeased :
      ((u : U) → Keeps (IsLeased holder until) (handle u))
      → (answer : Option (List U)) (again : Progress → Action (Unit {0})) (p : Progress)
      → ((q : Progress) → Keeps (IsLeased holder until) (again q))
      → Keeps (IsLeased holder until) (next_poll id_of handle answer again p)
  unfolding next_poll
  next_poll-IsLeased keeps none again p k = k p
  next_poll-IsLeased keeps (some us) again p k =
      Keeps-bind (handle_batch id_of handle us p) _ (handle_batch-IsLeased keeps us p)
        (λ b. k (progress id_of handle b))

  while_alive-IsLeased :
      (alive : Result (Unit {0})) (again : Action (Unit {0}))
      → Keeps (IsLeased holder until) again
      → Keeps (IsLeased holder until) (while_alive id_of handle alive again)
  while_alive-IsLeased (err e) again k = Keeps-pure tt
  while_alive-IsLeased (ok _) again k = k

  poll-IsLeased :
      ((u : U) → Keeps (IsLeased holder until) (handle u))
      → (answers : List (Option (List U))) (p : Progress)
      → Keeps (IsLeased holder until) (poll id_of handle answers p)
  unfolding poll
  poll-IsLeased keeps [] p = Keeps-pure tt
  poll-IsLeased keeps (answer ∷ answers) p =
      Keeps-bind (attempt canceled) _ (Keeps-attempt canceled (canceled-IsLeased holder until))
        (λ alive. while_alive-IsLeased alive _ (
          next_poll-IsLeased keeps answer (poll id_of handle answers) p
            (λ q. poll-IsLeased keeps answers q)))

  -- Polling does not prolong the lease: if the handlers leave it alone, then however long the polls go
  -- on, another instance is granted the lease as soon as the one that was taken at the start is over.
  pub poll-lease_lapses :
      ((u : U) → Keeps (IsLeased holder until) (handle u))
      → (answers : List (Option (List U))) (p : Progress) (w : World) → IsLeased holder until w.db
      → (other : Text) (late : ℕ) → until < late
      → (take_lease other late (poll id_of handle answers p w).1.db).0 ≡ ok true
  unfolding take_lease
  poll-lease_lapses keeps answers p w leased other late after =
      let kept = (poll-IsLeased keeps answers p).at w leased in ground (arith, kept)

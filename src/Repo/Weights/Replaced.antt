-- ===== src/Repo/Weights/Replaced.antt =====
-- What `ReplaceWeights` leaves of the generations of a user's model.
use mathlib.Core.List.{append-nil, append_assoc}
use property_search.Prelude.{
  ℕ, ◌≡◌, refl, sym, ap, ◌∙◌, Text, Bool, true, false, not, ◌&&◌, List, [], ◌∷◌, ◌++◌, map, filter,
  filter-append, filter-none, All, any, any-snoc, update, find?, some, arith, text_eq, text_eq_iff,
  ==_refl, Bool-cases, inl, inr,
}
use property_search.Store.{UserRow, WeightsRow, Db, ok, exec}
use property_search.Store.Ensures.{
  Ensures, Ensures-exec, Ensures-exec_result, Ensures-bind, Ensures-weaken, Ensures-transaction,
}
use property_search.Repo.Users.{is_user}
use property_search.Repo.Weights.{
  WeightRow, is_weight, new_weight, insert_weight, insert_weights, select_version, flip_version,
  prune_weights, is_stale, of_version, replace_weights,
}

abbrev pub is_row : Text → Text → WeightRow → Bool
is_row feature value r = text_eq r.feature feature && text_eq r.value value

-- No two rows are for one feature and value.
abbrev pub IsDistinct : List WeightRow → Type 0
IsDistinct [] = Unit
IsDistinct (x ∷ xs) = (any (is_row x.feature x.value) xs ≡ false) × IsDistinct xs

module _ (user version : ℕ) where
  -- None of the rows is among those of the table.
  abbrev IsFresh : List WeightRow → List WeightsRow → Type 0
  IsFresh xs rows =
      All (λ (x : WeightRow). any (is_weight user version x.feature x.value) rows ≡ false) xs

  -- The table after an insert of rows that are not there.
  abbrev Holds : List UserRow → List WeightsRow → Db → Type 0
  Holds us rows d = (d.users ≡ us) × (d.model_weights ≡ rows)

  insert_weight-Holds :
      (us : List UserRow) (rows : List WeightsRow) (x : WeightRow)
      → any (is_weight user version x.feature x.value) rows ≡ false
      → (d : Db) → Holds us rows d
      → (a : Unit {0}) → (insert_weight user version x d).0 ≡ ok a
      → Holds us (rows ++ new_weight user version x ∷ []) (insert_weight user version x d).1
  unfolding insert_weight
  insert_weight-Holds us rows x none_there d h a e =
      ground (arith, h.0, h.1, ap (any (is_weight user version x.feature x.value)) h.1)

  IsFresh-snoc :
      (x : WeightRow) (xs : List WeightRow) (rows : List WeightsRow)
      → any (is_row x.feature x.value) xs ≡ false
      → IsFresh xs rows
      → IsFresh xs (rows ++ new_weight user version x ∷ [])
  IsFresh-snoc x [] rows distinct fresh = tt
  IsFresh-snoc x (y ∷ ys) rows distinct (fy, fresh) = (
    rw any-snoc (
        ground (
          arith,
          text_eq_iff x.feature y.feature,
          text_eq_iff x.value y.value,
          text_eq_iff y.feature x.feature,
          text_eq_iff y.value x.value,
        )),
    IsFresh-snoc x ys rows (ground arith) fresh,
  )

  insert_weights-Holds :
      (us : List UserRow) (xs : List WeightRow) (rows : List WeightsRow)
      → IsDistinct xs
      → IsFresh xs rows
      → Ensures
          (Holds us rows)
          (λ a. Holds us (rows ++ map (new_weight user version) xs))
          (insert_weights user version xs)
  unfolding insert_weights
  insert_weights-Holds us [] rows distinct fresh = record {
    at = λ w h a e. (h.0, h.1 ∙ sym (append-nil rows));
  }
  insert_weights-Holds us (x ∷ xs) rows (new, distinct) (fx, fresh) =
      Ensures-bind _ _
        (Ensures-exec_result (insert_weight user version x) (insert_weight-Holds us rows x fx))
        (λ _.
          Ensures-weaken (insert_weights user version xs) (λ d h. h)
            (λ a d h. (h.0, h.1 ∙ append_assoc rows _ _))
            (insert_weights-Holds us xs (rows ++ new_weight user version x ∷ []) distinct
              (IsFresh-snoc x xs rows new fresh)))

  -- The rows of the generation.
  abbrev pub stored : Db → List WeightsRow
  stored d = filter (of_version user version) d.model_weights

  filter-new :
      (xs : List WeightRow)
      → filter (of_version user version) (map (new_weight user version) xs)
        ≡ map (new_weight user version) xs
  filter-new [] = refl
  filter-new (x ∷ xs) =
      rw (==_refl user, ==_refl version) (ap (λ ys. new_weight user version x ∷ ys) (filter-new xs))

  prune-stored : (d : Db) → stored (prune_weights user version d) ≡ stored d
  unfolding prune_weights
  prune-stored d = go d.model_weights
    where
      go :
          (xs : List WeightsRow)
          → filter (of_version user version) (filter (λ r. not (is_stale user version d r)) xs)
            ≡ filter (of_version user version) xs
      go [] = refl
      go (x ∷ xs) = ground (arith, go xs)

  IsFresh-unused :
      (xs : List WeightRow) (rows : List WeightsRow)
      → any (of_version user version) rows ≡ false
      → IsFresh xs rows
  IsFresh-unused [] rows unused = tt
  IsFresh-unused (x ∷ xs) rows unused = (none_there rows unused, IsFresh-unused xs rows unused)
    where
      none_there :
          (rows : List WeightsRow)
          → any (of_version user version) rows ≡ false
          → any (is_weight user version x.feature x.value) rows ≡ false
      none_there [] h = refl
      none_there (r ∷ rows) h = ground (arith, none_there rows)

  find?-flipped :
      (us : List UserRow)
      → any (is_user user) us ≡ true
      → (u : UserRow) × (find?
            (is_user user)
            (update (is_user user) (λ r. record r { active_model_version = version }) us)
          ≡ some u)
        × (u.active_model_version ≡ version)
  find?-flipped [] h = ground arith
  find?-flipped (x ∷ xs) h = elim (Bool-cases (is_user user x)) [
    | inl e ↦ rw e (record x { active_model_version = version }, rw e refl, refl)
    | inr e ↦ rw e (rw e (find?-flipped xs (ground arith)))
  ]

  flip-select_version :
      (d : Db)
      → any (is_user user) d.users ≡ true
      → select_version user (flip_version user version d) ≡ some version
  unfolding flip_version
  flip-select_version d h =
      let (u, e, v) = find?-flipped d.users h in rw (e, select_version) (ap some v)

  -- What the table holds after the rows of a new generation were stored, and which one is active.
  pub replace_weights-stored :
      (us : List UserRow) (rows : List WeightsRow) (xs : List WeightRow)
      → any (is_user user) us ≡ true
      → any (of_version user version) rows ≡ false
      → IsDistinct xs
      → Ensures
          (λ d. (d.users ≡ us) × (d.model_weights ≡ rows))
          (λ a d.
            (select_version user d ≡ some version) × (stored d ≡ map (new_weight user version) xs))
          (replace_weights user version xs)
  unfolding replace_weights flip_version prune_weights
  replace_weights-stored us rows xs there unused distinct = Ensures-transaction _ (
      Ensures-bind (insert_weights user version xs) _
        (insert_weights-Holds us xs rows distinct (IsFresh-unused xs rows unused))
        (λ _. Ensures-bind (exec (flip_version user version)) _ flips (λ _. prunes)))
    where
      new : List WeightsRow
      new = map (new_weight user version) xs

      filtered : filter (of_version user version) (rows ++ new) ≡ new
      filtered =
          filter-append (of_version user version) rows new
          ∙ rw (filter-none (of_version user version) rows unused) (filter-new xs)

      flips :
          Ensures
            (Holds us (rows ++ new))
            (λ a d. (select_version user d ≡ some version) × (stored d ≡ new))
            (exec (flip_version user version))
      flips = Ensures-exec (flip_version user version) (λ d h. (
        flip-select_version d (rw h.0 there),
        ap (filter (of_version user version)) h.1 ∙ filtered,
      ))

      prunes :
          Ensures
            (λ d. (select_version user d ≡ some version) × (stored d ≡ new))
            (λ a d. (select_version user d ≡ some version) × (stored d ≡ new))
            (exec (prune_weights user version))
      prunes = Ensures-exec (prune_weights user version) (λ d h. (h.0, prune-stored d ∙ h.1))

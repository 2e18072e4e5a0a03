-- ===== src/Store/Ensures.antt =====
-- What holds of the database after an action that has returned, one rule for each way to build one.
use mathlib.Core.Path.{subst}
use property_search.Prelude.{Text, ◌≡◌, refl, Bool, Option, none, some, Bool-cases, inl, inr, arith}
use property_search.Store.Tables.{Db}
use property_search.Store.Actions.{
  World, Result, ok, err, Action, query, exec, exec_result, transaction, begin_or_commit, roll_back,
  pure, raise, no_row, follow, ◌>>=◌, ◌>>◌,
}

ok-injective : {A : Type 0} (a b : A) → ok a ≡ ok b → a ≡ b
ok-injective a b e = cc

-- From `P` before, `Q` of the value and the database after, unless the action fails.
pub record Ensures {A : Type 0} (P : Db → Type 0) (Q : A → Db → Type 0) (m : Action A)
    : Type 0 where
  pub at : (w : World) → P w.db → (a : A) → (m w).0 ≡ ok a → Q a (m w).1.db

module _ {A : Type 0} {P : Db → Type 0} where
  pub Ensures-any : (m : Action A) → Ensures P (λ a d. Unit) m
  Ensures-any m = record { at = λ w h a e. tt }

  pub Ensures-pure : (a : A) → Ensures P (λ b d. P d × (b ≡ a)) (pure a)
  Ensures-pure a = record { at = λ w h b e. (h, ground arith) }

  pub Ensures-or_no_row :
      (v : Option A)
      → Ensures P (λ a d. P d × (v ≡ some a)) (elim v [ none ↦ raise no_row | some a ↦ pure a ])
  Ensures-or_no_row none = record { at = λ w h b e. ground arith }
  Ensures-or_no_row (some a) = record { at = λ w h b e. (h, ground arith) }

  -- A query that depends on the database's collation.
  pub Ensures-query_at :
      (f : (Text → Text → Bool) → Db → A)
      → Ensures P
          (λ a d. P d × ((c : Text → Text → Bool) × (a ≡ f c d)))
          (λ w. query (f w.env.collate) w)
  Ensures-query_at f = record {
    at = λ w h a. elim (Bool-cases (w.env.db_fails w.step)) [
      | inl e ↦ rw e (λ q. ground arith)
      | inr e ↦ rw e (λ q. (h, (w.env.collate, ground arith)))
    ];
  }

  pub Ensures-query : (f : Db → A) → Ensures P (λ a d. P d × (a ≡ f d)) (query f)
  Ensures-query f = record {
    at = λ w h a. elim (Bool-cases (w.env.db_fails w.step)) [
      | inl e ↦ rw e (λ q. ground arith)
      | inr e ↦ rw e (λ q. (h, ground arith))
    ];
  }

module _ {P Q : Db → Type 0} where
  pub Ensures-exec : (f : Db → Db) → ((d : Db) → P d → Q (f d)) → Ensures P (λ a. Q) (exec f)
  Ensures-exec f k = record {
    at = λ w h a. elim (Bool-cases (w.env.db_fails w.step)) [
      | inl e ↦ rw e (λ q. ground arith)
      | inr e ↦ rw e (λ q. k w.db h)
    ];
  }

module _ {A B : Type 0} {P : Db → Type 0} {R : A → Db → Type 0} {Q : B → Db → Type 0} where
  pub Ensures-bind :
      (m : Action A) (f : A → Action B)
      → Ensures P R m
      → ((a : A) → Ensures (R a) Q (f a))
      → Ensures P Q (m >>= f)
  Ensures-bind m f km kf = record { at = λ w h. after (m w) (km.at w h) }
    where
      after :
          (x : Result A × World)
          → ((a : A) → x.0 ≡ ok a → R a x.1.db)
          → (b : B) → (follow x f).0 ≡ ok b
          → Q b (follow x f).1.db
      after (ok a, w) h b q = (kf a).at w (h a refl) b q
      after (err e, w) h b q = ground arith

module _ {A : Type 0} {P : Db → Type 0} {Q : A → Db → Type 0} where
  pub Ensures-exec_result :
      (f : Db → Result A × Db)
      → ((d : Db) → P d → (a : A) → (f d).0 ≡ ok a → Q a (f d).1)
      → Ensures P Q (exec_result f)
  Ensures-exec_result f k = record {
    at = λ w h a. elim (Bool-cases (w.env.db_fails w.step)) [
      | inl e ↦ rw e (λ q. ground arith)
      | inr e ↦ rw e (λ q. k w.db h a q)
    ];
  }

  pub Ensures-weaken :
      {R : Db → Type 0} {S : A → Db → Type 0} (m : Action A)
      → ((d : Db) → R d → P d)
      → ((a : A) (d : Db) → Q a d → S a d)
      → Ensures P Q m
      → Ensures R S m
  Ensures-weaken m p q k = record { at = λ w h a e. q a (m w).1.db (k.at w (p w.db h) a e) }

begins : (P : Db → Type 0) → Ensures P (λ a. P) begin_or_commit
begins P = record {
  at = λ w h a e. elim (Bool-cases (w.env.db_fails w.step)) [ inl f ↦ rw f h | inr f ↦ rw f h ];
}

roll_back-ok :
    {A : Type 0} (Q : A → Db → Type 0) (d : Db) (x : Result A × World)
    → ((a : A) → x.0 ≡ ok a → Q a x.1.db)
    → (a : A) → (roll_back d x).0 ≡ ok a
    → Q a (roll_back d x).1.db
roll_back-ok Q d (ok b, w) k a h = k a h
roll_back-ok Q d (err e, w) k a h = ground arith

module _ {A : Type 0} {Q : A → Db → Type 0} where
  keeps_value : (a : A) → Ensures (Q a) Q (begin_or_commit >> pure a)
  keeps_value a =
      Ensures-bind begin_or_commit _ (begins (Q a))
        (λ _. record { at = λ w h b e. same b e w.db h })
    where
      same : (b : A) → ok a ≡ ok b → (d : Db) → Q a d → Q b d
      same b e d h = subst (λ c. Q c d) (ok-injective a b e) h

  -- A transaction that returns has done what its statements do.
  pub Ensures-transaction :
      {P : Db → Type 0} (m : Action A) → Ensures P Q m → Ensures P Q (transaction m)
  Ensures-transaction {P} m k = record {
    at = λ w h.
        roll_back-ok Q w.db _ (
          (Ensures-bind begin_or_commit _ (begins P) (λ _. Ensures-bind m _ k keeps_value)).at w h);
  }

-- What is known before an action may be used to show what holds after it.
pub Ensures-given :
    {A : Type 0} {P : Db → Type 0} {Q : A → Db → Type 0} (m : Action A)
    → ((d : Db) → P d → Ensures P Q m)
    → Ensures P Q m
Ensures-given m k = record { at = λ w h. (k w.db h).at w h }

-- ===== src/Store/Invariants.antt =====
-- Invariants of the database under actions, one rule for each way to build an action.
use property_search.Prelude.{
  ℕ, ◌≡◌, refl, Bool, true, false, if◌then◌else◌, Bool-cases, inl, inr, ◌⊎◌,
}
use property_search.Store.Tables.{Db}
use property_search.Store.Actions.{
  World, Event, Error, Result, ok, err, Action, pure, raise, now, attempt, query, exec, exec_result,
  transaction, roll_back, follow, begin_or_commit, call_api, canceled, ◌>>=◌,
}

-- `m` keeps `P`, whether it returns or fails.
pub record Keeps {A : Type 0} (P : Db → Type 0) (m : Action A) : Type 0 where
  pub at : (w : World) → P w.db → P (m w).1.db

module _ {A : Type 0} {P : Db → Type 0} where
  pub Keeps-pure : (a : A) → Keeps P (pure a)
  Keeps-pure a = record { at = λ w h. h }

  pub Keeps-raise : (e : Error) → Keeps P (raise {A = A} e)
  Keeps-raise e = record { at = λ w h. h }

  pub Keeps-query : (f : Db → A) → Keeps P (query f)
  Keeps-query f = record {
    at = λ w h. elim (Bool-cases (w.env.db_fails w.step)) [ inl e ↦ rw e h | inr e ↦ rw e h ];
  }

  pub Keeps-exec_result :
      (f : Db → Result A × Db) → ((d : Db) → P d → P (f d).1) → Keeps P (exec_result f)
  Keeps-exec_result f k = record {
    at = λ w h. elim (Bool-cases (w.env.db_fails w.step)) [
      | inl e ↦ rw e h
      | inr e ↦ rw e (k w.db h)
    ];
  }

  pub Keeps-if : (b : Bool) (m n : Action A) → Keeps P m → Keeps P n → Keeps P (if b then m else n)
  Keeps-if true m n h k = h
  Keeps-if false m n h k = k

  -- A query that depends on the database's collation.
  pub Keeps-query_at : (f : World → Db → A) → Keeps P (λ w. query (f w) w)
  Keeps-query_at f = record { at = λ w. (Keeps-query (f w)).at w }

  pub Keeps-now : (f : ℕ → Action A) → ((at : ℕ) → Keeps P (f at)) → Keeps P (now >>= f)
  Keeps-now f k = record { at = λ w. (k (w.env.clock w.step)).at w }

  pub Keeps-attempt : (m : Action A) → Keeps P m → Keeps P (attempt m)
  Keeps-attempt m k = record { at = k.at }

module _ {P : Db → Type 0} where
  pub Keeps-exec : (f : Db → Db) → ((d : Db) → P d → P (f d)) → Keeps P (exec f)
  Keeps-exec f k = record {
    at = λ w h. elim (Bool-cases (w.env.db_fails w.step)) [
      | inl e ↦ rw e h
      | inr e ↦ rw e (k w.db h)
    ];
  }

  pub Keeps-call_api : (e : Event) → Keeps P (call_api e)
  Keeps-call_api x = record {
    at = λ w h. elim (Bool-cases (w.env.api_fails w.step)) [ inl e ↦ rw e h | inr e ↦ rw e h ];
  }

  pub Keeps-canceled : Keeps P canceled
  Keeps-canceled = record {
    at = λ w h. elim (Bool-cases (w.env.cancels w.step)) [ inl e ↦ rw e h | inr e ↦ rw e h ];
  }

module _ {A B : Type 0} {P : Db → Type 0} where
  pub Keeps-bind :
      (m : Action A) (f : A → Action B) → Keeps P m → ((a : A) → Keeps P (f a)) → Keeps P (m >>= f)
  Keeps-bind m f km kf = record { at = λ w h. go (m w) (km.at w h) }
    where
      go : (x : Result A × World) → P x.1.db → P (follow x f).1.db
      go (ok a, w) h = (kf a).at w h
      go (err e, w) h = h

module _ {A B : Type 0} {P : Db → Type 0} (f : Error → Action B) (g : A → Action B) where
  -- An action whose error is looked at.
  pub Keeps-either :
      (m : Action A)
      → Keeps P m
      → ((e : Error) → Keeps P (f e))
      → ((a : A) → Keeps P (g a))
      → Keeps P (attempt m >>= (λ r. elim r [ err e ↦ f e | ok a ↦ g a ]))
  Keeps-either m k h l = Keeps-bind (attempt m) _ (Keeps-attempt m k) go
    where
      go : (r : Result A) → Keeps P (elim r [ err e ↦ f e | ok a ↦ g a ])
      go (err e) = h e
      go (ok a) = l a

module _ {A B : Type 0} {P : Db → Type 0} (f : Error → Action B) (g : A → Action B)
    (Q : A → Type 0) where
  -- The same, where what follows needs to know something of what the action returned.
  pub Keeps-either_given :
      (m : Action A)
      → Keeps P m
      → ((w : World) (a : A) → (m w).0 ≡ ok a → Q a)
      → ((e : Error) → Keeps P (f e))
      → ((a : A) → Q a → Keeps P (g a))
      → Keeps P (attempt m >>= (λ r. elim r [ err e ↦ f e | ok a ↦ g a ]))
  Keeps-either_given m k known h l = record { at = λ w p. go w (m w).0 refl (k.at w p) }
    where
      go :
          (w : World) (r : Result A)
          → (m w).0 ≡ r
          → P (m w).1.db
          → P ((elim r as (λ x. Action B) [ err e ↦ f e | ok a ↦ g a ]) (m w).1).1.db
      go w (err e) q p = (h e).at (m w).1 p
      go w (ok a) q p = (l a (known w a q)).at (m w).1 p

Keeps-begin_or_commit : (P : Db → Type 0) → Keeps P begin_or_commit
Keeps-begin_or_commit P = record {
  at = λ w h. elim (Bool-cases (w.env.db_fails w.step)) [ inl e ↦ rw e h | inr e ↦ rw e h ];
}

module _ {A : Type 0} where
  roll_back-err :
      (d : Db) (x : Result A × World) (e : Error)
      → (roll_back d x).0 ≡ err e
      → (roll_back d x).1.db ≡ d
  roll_back-err d (ok a, w) e h = cc
  roll_back-err d (err e', w) e h = refl

  Keeps-transaction_body :
      (P : Db → Type 0) (d : Db) (x : Result A × World) → P d → P x.1.db → P (roll_back d x).1.db
  Keeps-transaction_body P d (ok a, w) h k = k
  Keeps-transaction_body P d (err e, w) h k = h

  -- A transaction that fails leaves the database as it was.
  pub transaction-err :
      (m : Action A) (w : World) (e : Error)
      → (transaction m w).0 ≡ err e
      → (transaction m w).1.db ≡ w.db
  transaction-err m w e h = roll_back-err w.db _ e h

module _ {A : Type 0} {P : Db → Type 0} where
  pub Keeps-transaction : (m : Action A) → Keeps P m → Keeps P (transaction m)
  Keeps-transaction m k = record {
    at = λ w h. Keeps-transaction_body P w.db _ h (
        (Keeps-bind begin_or_commit _ (Keeps-begin_or_commit P) (λ _.
            Keeps-bind m _ k
              (λ a. Keeps-bind begin_or_commit _ (Keeps-begin_or_commit P) (λ _. Keeps-pure a)))).at
          w h);
  }

-- A result is a value or an error.
pub Result-cases :
    {A : Type 0} (r : Result A) → ((a : A) × (r ≡ ok a)) ⊎ ((e : Error) × (r ≡ err e))
Result-cases (ok a) = inl (a, refl)
Result-cases (err e) = inr (e, refl)

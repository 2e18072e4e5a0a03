-- ===== src/Store/Silent.antt =====
-- Actions that send nothing, and what relates the database after them to the one before; one rule for
-- each way to build an action. The relation is any preorder.
use property_search.Prelude.{
  ℕ, ◌≡◌, refl, ◌∙◌, Bool, true, false, if◌then◌else◌, Bool-cases, inl, inr,
}
use property_search.Store.Tables.{Db}
use property_search.Store.Actions.{
  World, Error, Result, ok, err, Action, pure, raise, now, attempt, query, exec, exec_result,
  transaction, roll_back, follow, begin_or_commit, ◌>>=◌, ◌>>◌,
}

pub record IsPreorder (R : Db → Db → Type 0) : Type 0 where
  pub stay : (d : Db) → R d d
  pub trans : (a b c : Db) → R a b → R b c → R a c

-- No message is sent, and the databases are related, also where the action fails.
pub record Silent {A : Type 0} (R : Db → Db → Type 0) (m : Action A) : Type 0 where
  pub log : (w : World) → (m w).1.log ≡ w.log
  pub db : (w : World) → R w.db (m w).1.db

module _ {R : Db → Db → Type 0} (o : IsPreorder R) where
  module _ {A : Type 0} where
    pub Silent-pure : (a : A) → Silent R (pure a)
    Silent-pure a = record { log = λ w. refl; db = λ w. o.stay w.db }

    pub Silent-raise : (e : Error) → Silent R (raise {A = A} e)
    Silent-raise e = record { log = λ w. refl; db = λ w. o.stay w.db }

    pub Silent-now : (f : ℕ → Action A) → ((at : ℕ) → Silent R (f at)) → Silent R (now >>= f)
    Silent-now f k = record {
      log = λ w. (k (w.env.clock w.step)).log w;
      db = λ w. (k (w.env.clock w.step)).db w;
    }

    pub Silent-if :
        (b : Bool) (m n : Action A) → Silent R m → Silent R n → Silent R (if b then m else n)
    Silent-if true m n h k = h
    Silent-if false m n h k = k

    pub Silent-query : (f : Db → A) → Silent R (query f)
    Silent-query f = record {
      log =
          λ w. elim (Bool-cases (w.env.db_fails w.step)) [ inl e ↦ rw e refl | inr e ↦ rw e refl ];
      db = λ w. elim (Bool-cases (w.env.db_fails w.step)) [
        | inl e ↦ rw e (o.stay w.db)
        | inr e ↦ rw e (o.stay w.db)
      ];
    }

    -- A query that depends on the database's collation.
    pub Silent-query_at : (f : World → Db → A) → Silent R (λ w. query (f w) w)
    Silent-query_at f = record {
      log = λ w. (Silent-query (f w)).log w;
      db = λ w. (Silent-query (f w)).db w;
    }

    pub Silent-exec_result :
        (f : Db → Result A × Db) → ((d : Db) → R d (f d).1) → Silent R (exec_result f)
    Silent-exec_result f k = record {
      log =
          λ w. elim (Bool-cases (w.env.db_fails w.step)) [ inl e ↦ rw e refl | inr e ↦ rw e refl ];
      db = λ w. elim (Bool-cases (w.env.db_fails w.step)) [
        | inl e ↦ rw e (o.stay w.db)
        | inr e ↦ rw e (k w.db)
      ];
    }

    pub Silent-attempt : (m : Action A) → Silent R m → Silent R (attempt m)
    Silent-attempt m k = record { log = k.log; db = k.db }

  pub Silent-exec : (f : Db → Db) → ((d : Db) → R d (f d)) → Silent R (exec f)
  Silent-exec f k = record {
    log = λ w. elim (Bool-cases (w.env.db_fails w.step)) [ inl e ↦ rw e refl | inr e ↦ rw e refl ];
    db = λ w. elim (Bool-cases (w.env.db_fails w.step)) [
      | inl e ↦ rw e (o.stay w.db)
      | inr e ↦ rw e (k w.db)
    ];
  }

  module _ {A B : Type 0} where
    follow-log :
        (f : A → Action B)
        → ((a : A) → Silent R (f a))
        → (x : Result A × World) → (follow x f).1.log ≡ x.1.log
    follow-log f k (ok a, w) = (k a).log w
    follow-log f k (err e, w) = refl

    follow-db :
        (f : A → Action B)
        → ((a : A) → Silent R (f a))
        → (d : Db) (x : Result A × World) → R d x.1.db
        → R d (follow x f).1.db
    follow-db f k d (ok a, w) h = o.trans d w.db _ h ((k a).db w)
    follow-db f k d (err e, w) h = h

    pub Silent-bind :
        (m : Action A) (f : A → Action B)
        → Silent R m
        → ((a : A) → Silent R (f a))
        → Silent R (m >>= f)
    Silent-bind m f km kf = record {
      log = λ w. follow-log f kf (m w) ∙ km.log w;
      db = λ w. follow-db f kf w.db (m w) (km.db w);
    }

  Silent-begin_or_commit : Silent R begin_or_commit
  Silent-begin_or_commit = record {
    log = λ w. elim (Bool-cases (w.env.db_fails w.step)) [ inl e ↦ rw e refl | inr e ↦ rw e refl ];
    db = λ w. elim (Bool-cases (w.env.db_fails w.step)) [
      | inl e ↦ rw e (o.stay w.db)
      | inr e ↦ rw e (o.stay w.db)
    ];
  }

  module _ {A : Type 0} where
    roll_back-log : (d : Db) (x : Result A × World) → (roll_back d x).1.log ≡ x.1.log
    roll_back-log d (ok a, w) = refl
    roll_back-log d (err e, w) = refl

    roll_back-db : (d : Db) (x : Result A × World) → R d x.1.db → R d (roll_back d x).1.db
    roll_back-db d (ok a, w) h = h
    roll_back-db d (err e, w) h = o.stay d

    committed : (m : Action A) → Action A
    committed m = do begin_or_commit; a ← m; begin_or_commit; pure a

    Silent-committed : (m : Action A) → Silent R m → Silent R (committed m)
    unfolding committed
    Silent-committed m k = Silent-bind begin_or_commit _ Silent-begin_or_commit (λ _.
        Silent-bind m _ k
          (λ a. Silent-bind begin_or_commit _ Silent-begin_or_commit (λ _. Silent-pure a)))

    pub Silent-transaction : (m : Action A) → Silent R m → Silent R (transaction m)
    unfolding committed
    Silent-transaction m k = record {
      log = λ w. roll_back-log w.db _ ∙ (Silent-committed m k).log w;
      db = λ w. roll_back-db w.db _ ((Silent-committed m k).db w);
    }

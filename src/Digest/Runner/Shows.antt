-- ===== src/Digest/Runner/Shows.antt =====
-- Parts of a cycle, and what each of them may send of a listing; one rule for each way to build one.
use property_search.Prelude.{
  ℕ, ◌≡◌, refl, Bool, true, false, arith, List, [], ◌==◌, Option, none, some, if◌then◌else◌,
  Bool-cases, inl, inr,
}
use property_search.Store.{
  World, Error, Result, ok, err, Action, no_row, raise, pure, follow, attempt, canceled, query,
  ◌>>=◌,
}
use property_search.Store.Silent.{
  IsPreorder, Silent, Silent-query, Silent-query_at, Silent-if, Silent-raise, Silent-bind,
  Silent-pure,
}
use property_search.Repo.Weights.{
  WeightRow, active_weights, model_version, select_version, or_no_row, select_weights,
}
use property_search.Score.{load, load_rows}
use property_search.Digest.Runner.{Ran, or_end, ended}
use property_search.Digest.Runner.Indexing.{IsKeyed, Grows, Grows-IsPreorder}
use property_search.Digest.Runner.Once.{Shown}
use property_search.Digest.Runner.Room.{room, room-le}

module _ (user item : ℕ) where
  pub record Shows (limit : ℕ) (m : Action Ran) : Type 0 where
    pub at : (w : World) → IsKeyed w.db → Shown user item limit (room user item w.db) w (m w)

  module _ (limit : ℕ) where
    -- An error that comes before anything is sent.
    pub Shown-quiet :
        (w : World) (x : Result Ran × World)
        → x.1.log ≡ w.log
        → Grows user item w.db x.1.db
        → Shown user item limit (room user item w.db) w x
    Shown-quiet w x same g = record {
      grown = ground (arith, same);
      few = ground (arith, same);
      short = ground (arith, same);
      kept = g;
      shown = λ r e f u. ground (arith, same);
    }

    Shown-after :
        (w w' : World) (x : Result Ran × World)
        → w'.log ≡ w.log
        → Grows user item w.db w'.db
        → Shown user item limit (room user item w'.db) w' x
        → Shown user item limit (room user item w.db) w x
    Shown-after w w' x same g s = record {
      grown = ground (arith, same, s.grown);
      few = ground (arith, same, s.few, room-le user item w.db w'.db g);
      short = ground (arith, same, s.short);
      kept = (Grows-IsPreorder user item).trans w.db w'.db x.1.db g s.kept;
      shown = λ r e f u. ground (arith, same, s.shown r e f u);
    }

    pub Shows-bind :
        {A : Type 0} (m : Action A) (f : A → Action Ran)
        → Silent (Grows user item) m
        → ((a : A) → Shows limit (f a))
        → Shows limit (m >>= f)
    Shows-bind {A} m f q k = record { at = λ w h. after w h (m w) (q.log w) (q.db w) }
      where
        after :
            (w : World)
            → IsKeyed w.db
            → (x : Result A × World) → x.1.log ≡ w.log
            → Grows user item w.db x.1.db
            → Shown user item limit (room user item w.db) w (follow x f)
        after w h (ok a, w') same g = Shown-after w w' (f a w') same g ((k a).at w' (g.1 h))
        after w h (err e, w') same g = Shown-quiet w (err e, w') same g

    -- An error becomes the end of the cycle.
    pub Shows-or_end : (m : Action Ran) → Shows limit m → Shows limit (attempt m >>= or_end)
    Shows-or_end m k = record { at = λ w h. after w (m w) (k.at w h) }
      where
        after :
            (w : World) (x : Result Ran × World)
            → Shown user item limit (room user item w.db) w x
            → Shown user item limit (room user item w.db) w (or_end x.0 x.1)
        after w (ok r, w') s = s
        after w (err e, w') s = record {
          grown = s.grown;
          few = s.few;
          short = s.short;
          kept = s.kept;
          shown = λ r p f u. ground arith;
        }

    Shows-ended : (e : Error) → Shows limit (ended 0 (some e))
    Shows-ended e = record {
      at = λ w h. Shown-quiet w (ended 0 (some e) w) refl ((Grows-IsPreorder user item).stay w.db);
    }

    pub Shows-done : Shows limit (ended 0 none)
    Shows-done = record {
      at = λ w h. Shown-quiet w (ended 0 none w) refl ((Grows-IsPreorder user item).stay w.db);
    }

    pub Shows-raise : (e : Error) → Shows limit (raise e)
    Shows-raise e = record {
      at = λ w h. Shown-quiet w (raise e w) refl ((Grows-IsPreorder user item).stay w.db);
    }

    pub Silent-canceled : Silent (Grows user item) canceled
    Silent-canceled = record {
      log = λ w. elim (Bool-cases (w.env.cancels w.step)) [ inl e ↦ rw e refl | inr e ↦ rw e refl ];
      db = λ w. elim (Bool-cases (w.env.cancels w.step)) [
        | inl e ↦ rw e (λ h. h, λ h. h)
        | inr e ↦ rw e (λ h. h, λ h. h)
      ];
    }

    pre : IsPreorder (Grows user item)
    pre = Grows-IsPreorder user item

    Silent-version : Silent (Grows user item) (model_version user)
    unfolding model_version
    Silent-version =
        Silent-bind pre (query (select_version user)) _ (Silent-query pre (select_version user))
          found
      where
        found : (v : Option ℕ) → Silent (Grows user item) (or_no_row v)
        found none = Silent-raise pre no_row
        found (some v) = Silent-pure pre v

    read_rows : ℕ → Action (ℕ × List WeightRow)
    read_rows version w =
        (do rows ← query (select_weights w.env.collate user version); pure (version, rows)) w

    Silent-rows : (version : ℕ) → Silent (Grows user item) (read_rows version)
    unfolding read_rows
    Silent-rows version =
        Silent-bind pre (λ w. query (select_weights w.env.collate user version) w) _
          (Silent-query_at pre (λ w. select_weights w.env.collate user version))
          (λ rows. Silent-pure pre (version, rows))

    pub Silent-load : Silent (Grows user item) (load user)
    unfolding load active_weights read_rows
    Silent-load =
        Silent-bind pre (active_weights user) _
          (Silent-bind pre (model_version user) _ Silent-version (λ version.
            Silent-if pre (version == 0) _ _ (Silent-pure pre (0, [])) (Silent-rows version)))
          (λ x. Silent-pure pre (record { version = x.0; buckets = load_rows x.1 [] }))

    pub Shows-if :
        (b : Bool) (m n : Action Ran)
        → Shows limit m
        → Shows limit n
        → Shows limit (if b then m else n)
    Shows-if true m n h k = h
    Shows-if false m n h k = k

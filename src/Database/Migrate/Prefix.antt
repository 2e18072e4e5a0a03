-- ===== src/Database/Migrate/Prefix.antt =====
-- internal/db/migrate.go: what a run leaves, also one that stops half way.
use mathlib.Core.List.{append-nil}
use property_search.Prelude.{
  ℕ, ◌+◌, ℤ, Text, ◌≡◌, refl, sym, ap, ◌∙◌, Bool, true, false, not, List, [], ◌∷◌, ◌++◌, map,
  Option, none, some, filter, arith, Bool-cases, Option-cases, inl, inr, append_assoc, ◌||◌,
}
use property_search.Database.Migrate.{
  Migration, File, Server, has_version, load_migrations, continue_with, apply_migration,
  migrate_each, migrate,
}

abbrev pub is_pending : List ℤ → Migration → Bool
is_pending applied m = not (has_version m.version applied)

module _ {S : Type 0} (exec_sql : Text → S → Option S) where
  -- The files one after another, each on the schema that the one before has left.
  abbrev pub apply_each : List Migration → S → Option S
  apply_each [] schema = some schema
  apply_each (m ∷ ms) schema = elim (exec_sql m.sql schema) [
    | none ↦ none
    | some next ↦ apply_each ms next
  ]

  -- The result of a run over the pending files: some first ones took effect, with their versions, and
  -- all of them if the run reports success.
  pub record IsPrefix (pending : List Migration) (s : Server S) (result : Bool × Server S)
      : Type 0 where
    pub done : List Migration
    pub left : List Migration
    pub split : done ++ left ≡ pending
    pub schema : apply_each done s.schema ≡ some result.1.schema
    pub versions : result.1.versions ≡ s.versions ++ map (λ (m : Migration). m.version) done
    pub whole : result.0 ≡ true → left ≡ []

  -- A file takes effect together with its version, or neither does.
  abbrev Tried : Migration → Server S → Bool × Server S → Type 0
  Tried m s (false, t) = (t.schema ≡ s.schema) × (t.versions ≡ s.versions)
  Tried m s (true, t) =
      (exec_sql m.sql s.schema ≡ some t.schema) × (t.versions ≡ s.versions ++ m.version ∷ [])

  apply_migration-Tried :
      (fails : ℕ → Bool) (m : Migration) (s : Server S)
      → Tried m s (apply_migration exec_sql fails m s)
  unfolding apply_migration
  apply_migration-Tried fails m s =
      elim (Bool-cases
        (fails s.step || (fails (s.step + 1) || (fails (s.step + 2) || fails (s.step + 3))))) [
          | inl e ↦ rw e (refl, refl)
          | inr e ↦ elim (Option-cases (exec_sql m.sql s.schema)) [
            | inl refused ↦ rw (e, refused) (refl, refl)
            | inr (next, done) ↦ elim (Bool-cases (has_version m.version s.versions)) [
              | inl known ↦ rw (e, done, known) (refl, refl)
              | inr new ↦ rw (e, done, new) (done, refl)
            ]
          ]
        ]

  continue_with-IsPrefix :
      (m : Migration) (pending : List Migration) (s : Server S) (r : Bool × Server S)
      (k : Server S → Bool × Server S)
      → Tried m s r
      → IsPrefix pending r.1 (k r.1)
      → IsPrefix (m ∷ pending) s (continue_with r k)
  continue_with-IsPrefix m pending s (false, t) k (same, old) rest = record {
    done = [];
    left = m ∷ pending;
    split = refl;
    schema = ap some (sym same);
    versions = old ∙ sym (append-nil s.versions);
    whole = λ e. ground arith;
  }
  continue_with-IsPrefix m pending s (true, t) k (next, new) rest = record {
    done = m ∷ rest.done;
    left = rest.left;
    split = ap (λ l. m ∷ l) rest.split;
    schema = rw (apply_each, next) rest.schema;
    versions =
        rest.versions
        ∙ (rw new (
            append_assoc s.versions (m.version ∷ [])
              (map (λ (x : Migration). x.version) rest.done)));
    whole = rest.whole;
  }

  migrate_each-IsPrefix :
      (fails : ℕ → Bool) (applied : List ℤ) (ms : List Migration) (s : Server S)
      → IsPrefix (filter (is_pending applied) ms) s (migrate_each exec_sql fails applied ms s)
  unfolding migrate_each
  migrate_each-IsPrefix fails applied [] s = record {
    done = [];
    left = [];
    split = refl;
    schema = refl;
    versions = sym (append-nil s.versions);
    whole = λ e. refl;
  }
  migrate_each-IsPrefix fails applied (m ∷ ms) s =
      elim (Bool-cases (has_version m.version applied)) [
        | inl e ↦ rw (migrate_each, e) (migrate_each-IsPrefix fails applied ms s)
        | inr e ↦
            rw (migrate_each, e)
              (continue_with-IsPrefix m (filter (is_pending applied) ms) s
                (apply_migration exec_sql fails m s) (migrate_each exec_sql fails applied ms)
                (apply_migration-Tried fails m s)
                (migrate_each-IsPrefix fails applied ms (apply_migration exec_sql fails m s).1))
      ]

  from_step :
      {pending : List Migration} {s : Server S} {r : Bool × Server S} {n : ℕ}
      → IsPrefix pending (record s { step = n }) r
      → IsPrefix pending s r
  from_step p = record {
    done = p.done;
    left = p.left;
    split = p.split;
    schema = p.schema;
    versions = p.versions;
    whole = p.whole;
  }

  -- A run of `Migrate`, whatever call fails, leaves the server as the first of the pending files do,
  -- applied in order one after another, with exactly their versions recorded in addition; if it reports
  -- success, it was all of them.
  pub migrate-IsPrefix :
      (fails : ℕ → Bool) (files : List File) (ms : List Migration) (s : Server S)
      → load_migrations files ≡ some ms
      → IsPrefix (filter (is_pending s.versions) ms) s (migrate exec_sql fails files s)
  unfolding migrate
  migrate-IsPrefix fails files ms s e =
      elim (Bool-cases
        (fails s.step || (fails (s.step + 1) || (fails (s.step + 2) || fails (s.step + 3))))) [
          | inl lost ↦ rw lost (record {
            done = [];
            left = filter (is_pending s.versions) ms;
            split = refl;
            schema = refl;
            versions = sym (append-nil s.versions);
            whole = λ q. ground arith;
          })
          | inr through ↦
              rw (through, e)
                (from_step
                  (migrate_each-IsPrefix fails s.versions ms (record s { step = s.step + 4 })))
        ]

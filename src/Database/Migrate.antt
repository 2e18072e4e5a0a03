-- ===== src/Database/Migrate.antt =====
-- internal/db/migrate.go: the embedded files, and the versions that the server has recorded. What a
-- statement of DDL does to the schema is a parameter. The advisory lock makes a run the only one.
pub mod Prefix
pub mod Again
use property_search.Prelude.{
  ℕ, ℤ, pos, negsuc, ◌+◌, Text, codes, Bool, true, false, not, ◌||◌, List, [], ◌∷◌, ◌++◌, Option,
  none, some, any, ltb, ◌==◌, if◌then◌else◌, has_suffix, cut, parse_int, sort_stable,
}

-- `migration`
pub record Migration : Type 0 where
  pub version : ℤ
  pub name : Text
  pub sql : Text

-- An entry of the embedded directory.
pub record File : Type 0 where
  pub name : Text
  pub is_dir : Bool
  pub body : Text

abbrev pub int_eq : ℤ → ℤ → Bool
int_eq (pos m) (pos n) = m == n
int_eq (negsuc m) (negsuc n) = m == n
int_eq _ _ = false

abbrev int_lt : ℤ → ℤ → Bool
int_lt (pos m) (pos n) = ltb m n
int_lt (pos m) (negsuc n) = false
int_lt (negsuc m) (pos n) = true
int_lt (negsuc m) (negsuc n) = ltb n m

infixl 5 ◌>>=◌
abbrev ◌>>=◌ : {A B : Type 0} → Option A → (A → Option B) → Option B
none >>= f = none
some a >>= f = f a

-- `migrationVersion`
unfoldable pub migration_version : Text → Option ℤ
unfolding cut parse_int
migration_version name = do (prefix, rest) ← cut b'_' name; parse_int prefix

unfoldable pub read_migrations : List File → Option (List Migration)
unfolding migration_version
read_migrations [] = some []
read_migrations (f ∷ fs) =
    let rest = read_migrations fs in
    if f.is_dir || not (has_suffix f.name (codes ".sql")) then rest else (do
      v ← migration_version f.name
      ms ← rest
      some (record { version = v; name = f.name; sql = f.body } ∷ ms))

-- `loadMigrations`
unfoldable pub load_migrations : List File → Option (List Migration)
unfolding read_migrations
load_migrations files = do
  ms ← read_migrations files
  some (sort_stable (λ (a b : Migration). int_lt a.version b.version) ms)

abbrev pub has_version : ℤ → List ℤ → Bool
has_version v vs = any (int_eq v) vs

-- The schema, the rows of `schema_migrations`, and the number of calls so far.
pub record Server (S : Type 0) : Type 0 where
  pub schema : S
  pub versions : List ℤ
  pub step : ℕ

module _ {S : Type 0} where
  abbrev calls : ℕ → Server S → Server S
  calls n s = record s { step = s.step + n }

  -- What follows a call that has returned without an error.
  abbrev pub continue_with : Bool × Server S → (Server S → Bool × Server S) → Bool × Server S
  continue_with (true, s) k = k s
  continue_with (false, s) k = (false, s)

-- What the statements of a text do, unless Postgres refuses them, and which calls are lost.
module _ {S : Type 0} (exec_sql : Text → S → Option S) (fails : ℕ → Bool) where
  abbrev any_fails : ℕ → Bool
  any_fails n = fails n || (fails (n + 1) || (fails (n + 2) || fails (n + 3)))

  -- The statements and the version, under its primary key, in one transaction.
  abbrev in_transaction : Migration → Server S → Option S → Bool × Server S
  in_transaction m s none = (false, calls 4 s)
  in_transaction m s (some schema) =
      if has_version m.version s.versions
      then (false, calls 4 s)
      else (true, record (calls 4 s) { schema = schema; versions = s.versions ++ m.version ∷ [] })

  -- `applyMigration`: begin, the file, its version, commit.
  unfoldable pub apply_migration : Migration → Server S → Bool × Server S
  apply_migration m s =
      if any_fails s.step then (false, calls 4 s) else in_transaction m s (exec_sql m.sql s.schema)

  unfoldable pub migrate_each : List ℤ → List Migration → Server S → Bool × Server S
  unfolding apply_migration
  migrate_each applied [] s = (true, s)
  migrate_each applied (m ∷ ms) s =
      let rest = migrate_each applied ms in
      elim (has_version m.version applied) [
        | true ↦ rest s
        | false ↦ continue_with (apply_migration m s) rest
      ]

  abbrev migrate_loaded : Option (List Migration) → Server S → Bool × Server S
  unfolding migrate_each
  migrate_loaded none s = (false, s)
  migrate_loaded (some ms) s = migrate_each s.versions ms s

  -- `Migrate`: the connection, the lock, the table and the versions that are recorded, then each file
  -- that is not among them.
  unfoldable pub migrate : List File → Server S → Bool × Server S
  unfolding migrate_loaded load_migrations
  migrate files s =
      if any_fails s.step
      then (false, calls 4 s)
      else migrate_loaded (load_migrations files) (calls 4 s)

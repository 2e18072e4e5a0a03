-- ===== src/Bot/Main.antt =====
-- cmd/bot/main.go: `main` from the configuration up to the scheduler. The jobs that it starts in goroutines
-- stand on their own in `Bot`.
pub mod Order
use property_search.Prelude.{
  ℕ, ℤ, pos, Bool, true, false, Text, Option, none, some, List, if◌then◌else◌,
}
use property_search.Store.{World, Error, Result, ok, err}
use property_search.Config.{
  Platform, Config, ConfigError, Getenv, Loaded, loaded, refused, load, daily_hour_parts,
}
use property_search.Database.Open.{Dials, Opened, pool, unreachable, canceled, open_pool}
use property_search.Database.Migrate.{File, Server, migrate}
use property_search.Database.Seed.{SeedOps}
use property_search.Outside.{Outside}
use property_search.Bot.{prepare, run_at_boot}

-- How far `main` came: the step whose error ends the process, or the schedule. `connecting` is a
-- connection for which the fuel is not enough.
pub data Boot : Type 0 where
  bad_config : ConfigError → Boot
  connecting : Boot
  no_pool : Opened → Boot
  unmigrated : Boot
  unprepared : Error → Boot
  unknown_zone : Boot
  scheduled : ℕ × ℕ → Boot

-- What `main` finds: the variables, the database's answers, the files of the migrations.
pub record Machine (S : Type 0) : Type 0 where
  pub platform : Platform
  pub getenv : Getenv
  pub fuel : ℕ
  pub dials : Dials
  pub started_at : ℕ
  pub exec_sql : Text → S → Option S
  pub fails : ℕ → Bool
  pub files : List File
  pub seed_ops : SeedOps
  pub order : Bool
  pub outside : Outside
  pub day_of : ℕ → ℕ

-- What `main` changes: the schema with its versions, and the rows with what is around them.
abbrev pub Both : Type 0 → Type 0
Both S = Server S × World

module _ {S : Type 0} (m : Machine S) where
  open m use {
    platform, getenv, fuel, dials, started_at, exec_sql, fails, files, seed_ops, order, outside,
    day_of,
  }

  -- `db.Open` without options.
  abbrev pub opened : Option Opened
  opened = open_pool fuel dials started_at (pos 0)

  abbrev pub at_zone : Config → Bool → Both S → Boot × Both S
  at_zone c false (s, w) = (unknown_zone, (s, w))
  at_zone c true (s, w) = (scheduled (daily_hour_parts c), (s, (run_at_boot outside day_of c w).1))

  abbrev pub prepared : Config → Server S → Result (Unit {0}) × World → Boot × Both S
  prepared c s (err e, w) = (unprepared e, (s, w))
  prepared c s (ok _, w) = at_zone c (platform.load_location c.schedule_tz) (s, w)

  abbrev pub migrated : Config → World → Bool × Server S → Boot × Both S
  migrated c w (false, s) = (unmigrated, (s, w))
  migrated c w (true, s) = prepared c s (prepare seed_ops order outside c w)

  abbrev pub connected : Config → Both S → Option Opened → Boot × Both S
  connected c b none = (connecting, b)
  connected c b (some unreachable) = (no_pool unreachable, b)
  connected c b (some canceled) = (no_pool canceled, b)
  connected c (s, w) (some (pool n)) = migrated c w (migrate exec_sql fails files s)

  abbrev pub configured : Both S → Loaded Config → Boot × Both S
  configured b (refused e) = (bad_config e, b)
  configured b (loaded c) = connected c b opened

  -- `main`
  unfoldable pub main : Both S → Boot × Both S
  main b = configured b (load platform getenv)

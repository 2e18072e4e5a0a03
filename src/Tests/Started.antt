-- ===== src/Tests/Started.antt =====
-- The theorems about the start of the database at concrete data.
use property_search.Prelude.{
  ℕ, suc, ℤ, ◌+◌, ◌*◌, ◌/◌, ◌≡◌, refl, Text, Bool, true, false, ◌==◌, List, [], ◌∷◌, ◌++◌, filter,
  Option, some, pos, negsuc, arith, codes, text_eq, has_suffix, sort_stable,
}
use property_search.Store.{World}
use property_search.Database.Seed.{SeedOps, SeedInput, seed}
use property_search.Database.Seed.Once.{seed-once}
use property_search.Database.Migrate.{Migration, File, Server, load_migrations, migrate}
use property_search.Database.Migrate.Prefix.{is_pending, IsPrefix, migrate-IsPrefix}
use property_search.Database.Migrate.Again.{migrate-again}
use property_search.Database.Open.{Dials, Opened, open_pool, connect_timeout, retry_delay}
use property_search.Database.Open.Returns.{Decided, open_pool-returns}
use property_search.Tests.Samples.{world}

abbrev pub ops : SeedOps
ops = record { key_of = key; normalize = λ u. some u; rfc3339 = λ t. codes "2026-01-02T03:04:05Z" }
  where
    key : ℤ → ℕ
    key (pos n) = 2 * n
    key (negsuc n) = 2 * n + 1

abbrev operator : SeedInput
operator = record {
  chat_id = codes "9";
  urls = record { label = codes "sur"; url = codes "https://www.zonaprop.com.ar/b.html" } ∷ [];
}

abbrev seeded : World
seeded = (seed ops true operator world).1

-- Every user has gone since.
abbrev emptied : World
emptied = record seeded { db = record seeded.db { users = []; search_urls = [] } }

seed-once_example :
    ((seed ops false operator emptied).1.db.users ≡ [])
    × ((seed ops false operator emptied).1.db.search_urls ≡ [])
unfolding seed text_eq
seed-once_example = seed-once ops true operator world refl refl false operator emptied refl

-- A schema is the list of the files that ran; the text of a file is one digit.
abbrev pub run_file : Text → List Text → Option (List Text)
run_file sql schema = some (schema ++ sql ∷ [])

abbrev pub files : List File
files =
    record { name = codes "0002_b.sql"; is_dir = false; body = codes "2" }
    ∷ record { name = codes "0001_a.sql"; is_dir = false; body = codes "1" }
    ∷ record { name = codes "notes.txt"; is_dir = false; body = [] }
    ∷ []

abbrev loaded_files : List Migration
loaded_files =
    record { version = pos 1; name = codes "0001_a.sql"; sql = codes "1" }
    ∷ record { version = pos 2; name = codes "0002_b.sql"; sql = codes "2" }
    ∷ []

abbrev pub fresh : Server (List Text)
fresh = record { schema = []; versions = []; step = 0 }

-- The commit of the second file is lost.
abbrev lost : ℕ → Bool
lost n = n == 11

loads_files : load_migrations files ≡ some loaded_files
unfolding load_migrations has_suffix sort_stable
loads_files = refl

migrate-IsPrefix_example :
    IsPrefix run_file
      (filter (is_pending fresh.versions) loaded_files)
      fresh
      (migrate run_file lost files fresh)
migrate-IsPrefix_example = migrate-IsPrefix run_file lost files loaded_files fresh loads_files

abbrev migrated : Server (List Text)
migrated = (migrate run_file (λ n. false) files fresh).1

migrate-again_example :
    ((migrate run_file lost files migrated).1.schema ≡ migrated.schema)
    × ((migrate run_file lost files migrated).1.versions ≡ migrated.versions)
unfolding migrate has_suffix sort_stable
migrate-again_example = migrate-again run_file (λ n. false) files fresh refl lost migrated refl refl

-- Postgres answers at the third attempt.
abbrev pub third : Dials
third = record { connects = λ n. n == 3; clock = λ n. n * retry_delay; cancels = λ n. false }

open_pool-returns_example :
    (o : Opened) × (open_pool (suc (connect_timeout (pos 0) / retry_delay + 1)) third 7 (pos 0)
      ≡ some o)
    × Decided third (7 + connect_timeout (pos 0)) 1 o
open_pool-returns_example = open_pool-returns third 7 (pos 0) (omega arith) (λ k. omega arith)

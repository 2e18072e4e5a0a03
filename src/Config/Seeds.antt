-- ===== src/Config/Seeds.antt =====
-- internal/config/config.go: `seedURLs`, the searches of SEED_URLS.
use property_search.Prelude.{
  Text, is_empty, ◌||◌, List, [], ◌∷◌, not, if◌then◌else◌, trim_space, split, cut,
}
use property_search.Config.Settings.{
  seed_form, empty_seed, Loaded, loaded, ◌>>=◌, or_refused, require, SeedUrl,
}

abbrev pub seed_parts : Text → Text → Text → Loaded SeedUrl
seed_parts entry label u =
    require (not (is_empty label || is_empty u)) (empty_seed entry)
      (record { label = label; url = u })

unfoldable pub read_seed : Text → Loaded SeedUrl
unfolding cut trim_space
read_seed entry = do
  (label, u) ← or_refused (seed_form entry) (cut b'|' entry)
  seed_parts entry (trim_space label) (trim_space u)

abbrev pub cons_seed : Loaded SeedUrl → Loaded (List SeedUrl) → Loaded (List SeedUrl)
cons_seed s rest = do seed ← s; seeds ← rest; loaded (seed ∷ seeds)

unfoldable pub read_seeds : List Text → Loaded (List SeedUrl)
unfolding trim_space read_seed
read_seeds [] = loaded []
read_seeds (raw ∷ es) =
    let rest = read_seeds es in
    let entry = trim_space raw in if is_empty entry then rest else cons_seed (read_seed entry) rest

unfoldable pub seed_urls_of : Text → Loaded (List SeedUrl)
unfolding read_seeds trim_space split
seed_urls_of raw = if is_empty (trim_space raw) then loaded [] else read_seeds (split b',' raw)

-- ===== src/Bot/Main/Order.antt =====
-- The order of the steps of `main`.
use mathlib.Core.Path.{subst}
use property_search.Prelude.{
  ap, sym, ℕ, ◌≡◌, ◌≢◌, refl, Bool, true, false, ◌⊎◌, inl, inr, Option, none, some,
}
use property_search.Store.{World, Result, ok, err}
use property_search.Config.{Config, Loaded, loaded, refused, load}
use property_search.Config.Valid.{load-IsValid}
use property_search.Database.Open.{Opened, pool, unreachable, canceled}
use property_search.Database.Migrate.{Server, migrate}
use property_search.Bot.{prepare}
use property_search.Bot.Main.{
  Boot, unknown_zone, Machine, Both, opened, at_zone, prepared, migrated, connected, configured,
  main,
}

module _ {S : Type 0} (m : Machine S) (s : Server S) (w : World) where
  abbrev run_of_migrations : Bool × Server S
  run_of_migrations = migrate m.exec_sql m.fails m.files s

  -- A boot changed what its steps may change, in their order.
  pub record Ordered (x : Boot × Both S) : Type 0 where
    pub server : (x.1.0 ≡ s) ⊎ (x.1.0 ≡ run_of_migrations.1)
    pub configured_first : (x.1 ≡ (s, w)) ⊎ (c : Config) × (load m.platform m.getenv ≡ loaded c)
    pub opened_first : (x.1 ≡ (s, w)) ⊎ (n : ℕ) × (opened m ≡ some (pool n))
    pub migrated_first : (x.1.1 ≡ w) ⊎ (run_of_migrations.0 ≡ true)
    pub zone_known : x.0 ≢ unknown_zone

  at_zone-Ordered :
      (c : Config) (b : Bool) (n : ℕ) (w' : World)
      → b ≡ true
      → load m.platform m.getenv ≡ loaded c
      → opened m ≡ some (pool n)
      → run_of_migrations.0 ≡ true
      → Ordered (at_zone m c b (run_of_migrations.1, w'))
  at_zone-Ordered c true n w' known read found went = record {
    server = inr refl;
    configured_first = inr (c, read);
    opened_first = inr (n, found);
    migrated_first = inr went;
    zone_known = λ h. absurd (cc h);
  }
  at_zone-Ordered c false n w' known read found went = absurd (cc known)

  prepared-Ordered :
      (c : Config) (n : ℕ) (x : Result (Unit {0}) × World)
      → load m.platform m.getenv ≡ loaded c
      → opened m ≡ some (pool n)
      → run_of_migrations.0 ≡ true
      → Ordered (prepared m c run_of_migrations.1 x)
  prepared-Ordered c n (ok _, w') read found went =
      at_zone-Ordered c _ n w' (load-IsValid m.platform m.getenv c read).zone read found went
  prepared-Ordered c n (err e, w') read found went = record {
    server = inr refl;
    configured_first = inr (c, read);
    opened_first = inr (n, found);
    migrated_first = inr went;
    zone_known = λ h. absurd (cc h);
  }

  migrated-Ordered :
      (c : Config) (n : ℕ) (x : Bool × Server S)
      → run_of_migrations ≡ x
      → load m.platform m.getenv ≡ loaded c
      → opened m ≡ some (pool n)
      → Ordered (migrated m c w x)
  migrated-Ordered c n (true, s') e read found =
      subst (λ t. Ordered (prepared m c t (prepare m.seed_ops m.order m.outside c w)))
        (ap (λ y. y.1) e) (prepared-Ordered c n _ read found (ap (λ y. y.0) e))
  migrated-Ordered c n (false, s') e read found = record {
    server = inr (ap (λ y. y.1) (sym e));
    configured_first = inr (c, read);
    opened_first = inr (n, found);
    migrated_first = inl refl;
    zone_known = λ h. absurd (cc h);
  }

  untouched : (b : Boot) → b ≢ unknown_zone → Ordered (b, (s, w))
  untouched b known = record {
    server = inl refl;
    configured_first = inl refl;
    opened_first = inl refl;
    migrated_first = inl refl;
    zone_known = known;
  }

  connected-Ordered :
      (c : Config) (o : Option Opened)
      → opened m ≡ o
      → load m.platform m.getenv ≡ loaded c
      → Ordered (connected m c (s, w) o)
  connected-Ordered c none found read = untouched _ (λ h. absurd (cc h))
  connected-Ordered c (some unreachable) found read = untouched _ (λ h. absurd (cc h))
  connected-Ordered c (some canceled) found read = untouched _ (λ h. absurd (cc h))
  connected-Ordered c (some (pool n)) found read = migrated-Ordered c n _ refl read found

  configured-Ordered :
      (l : Loaded Config) → load m.platform m.getenv ≡ l → Ordered (configured m (s, w) l)
  configured-Ordered (refused e) read = untouched _ (λ h. absurd (cc h))
  configured-Ordered (loaded c) read = connected-Ordered c _ refl read

-- However the start goes: the schema is as it was or as the run of the migrations leaves it; it is left
-- alone unless the configuration was loaded and a pool opened; nothing else is done, to the rows or to
-- Telegram, unless the migrations went through; and the zone of a configuration that was loaded is
-- never unknown.
pub main-Ordered :
    {S : Type 0} (m : Machine S) (s : Server S) (w : World) → Ordered m s w (main m (s, w))
unfolding main
main-Ordered m s w = configured-Ordered m s w _ refl

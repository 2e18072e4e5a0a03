-- ===== src/Config/Valid.antt =====
-- internal/config/config.go: what `Load` has checked of the settings that it returns.
use property_search.Prelude.{
  ℕ, ℤ, pos, negsuc, ◌<◌, ◌≡◌, ◌≢◌, refl, Text, codes, is_empty, true, ◌||◌, Option, none, some,
  List, [], ◌∷◌, All, arith, Bool-cases, inl, inr, ltb, not, parse_int, trim_space, cut, split,
  Option-cases,
}
use property_search.Config.Settings.{
  ConfigError, bad_url, seed_form, empty_seed, Loaded, loaded, refused, ◌>>=◌, or_refused, Platform,
  Getenv, SeedUrl, Config,
}
use property_search.Config.Gives.{
  Gives, Gives-any, Gives-loaded, Gives-refused, Gives-require, Gives-or_refused, Gives-bind,
}
use property_search.Config.Seeds.{read_seed, read_seeds, seed_urls_of}
use property_search.Config.{
  is_positive, at_least, duration_env, int_env, parse_hour, clock_part, valid_http_url, zone_env,
  hour_env, seconds, optional_url, load, bool_env, level_env,
}

abbrev pub IsClock : ℕ × ℕ → Type 0
IsClock (h, m) = (h < 24) × (m < 60)

abbrev pub IsLabelled : SeedUrl → Type 0
IsLabelled s = (s.label ≢ []) × (s.url ≢ [])

pub record IsValid (p : Platform) (c : Config) : Type 0 where
  pub retries : at_least 0 c.fetch_retries ≡ true
  pub timeouts :
      (is_positive c.fetch_timeout ≡ true)
      × (is_positive c.max_browser_timeout ≡ true)
      × (is_positive c.fetch_rate_limit ≡ true)
  pub zone : p.load_location c.schedule_tz ≡ true
  pub hour : (t : ℕ × ℕ) × (parse_hour c.daily_hour ≡ loaded t) × IsClock t
  pub daily : at_least 1 c.max_daily ≡ true
  pub seeds : All IsLabelled c.seed_urls
  pub solver : c.flaresolverr_url ≢ [] → valid_http_url p c.flaresolverr_url ≡ true
  pub proxy : c.zonaprop_proxy ≢ [] → valid_http_url p c.zonaprop_proxy ≡ true

int_env-at_least :
    (g : Getenv) (key : Text) (min : ℕ) (default : ℤ)
    → at_least min default ≡ true
    → Gives (λ n. at_least min n ≡ true) (int_env g key min default)
unfolding int_env
int_env-at_least g key min default h = elim (Bool-cases (is_empty (g key))) [
  | inl e ↦ rw e (Gives-loaded default h)
  | inr e ↦ rw e (elim (Option-cases (parse_int (g key))) [
    | inl none_e ↦ rw none_e (Gives-refused _)
    | inr (n, some_e) ↦ rw some_e (Gives-require (at_least min n) _ n (λ q. q))
  ])
]

duration_env-is_positive :
    (p : Platform) (g : Getenv) (key : Text) (default : ℤ)
    → is_positive default ≡ true
    → Gives (λ d. is_positive d ≡ true) (duration_env p g key default)
unfolding duration_env
duration_env-is_positive p g key default h = elim (Bool-cases (is_empty (g key))) [
  | inl e ↦ rw e (Gives-loaded default h)
  | inr e ↦ rw e (elim (Option-cases (p.parse_duration (g key))) [
    | inl none_e ↦ rw none_e (Gives-refused _)
    | inr (d, some_e) ↦ rw some_e (Gives-require (is_positive d) _ d (λ q. q))
  ])
]

clock_part-lt :
    (e : ConfigError) (limit : ℕ) (o : Option ℤ) → Gives (λ n. n < limit) (clock_part e limit o)
clock_part-lt e limit none = Gives-refused e
clock_part-lt e limit (some (pos n)) = Gives-require (ltb n limit) e n (λ q. ground arith)
clock_part-lt e limit (some (negsuc n)) = Gives-refused e

-- A time of day that is accepted is one: hours below 24, minutes below 60.
pub parse_hour-IsClock : (v : Text) → Gives IsClock (parse_hour v)
unfolding parse_hour
parse_hour-IsClock v =
    Gives-bind {P = λ x. Unit} (or_refused _ (cut b':' (trim_space v))) _
      (Gives-or_refused _ _ (λ a e. tt))
      (λ (hour, minute) _.
        Gives-bind (clock_part _ 24 (parse_int hour)) _ (clock_part-lt _ 24 (parse_int hour))
          (λ h hp.
            Gives-bind (clock_part _ 60 (parse_int minute)) _
              (clock_part-lt _ 60 (parse_int minute)) (λ m mp. Gives-loaded (h, m) (hp, mp))))

abbrev Clocked : Text → Type 0
Clocked v = (t : ℕ × ℕ) × (parse_hour v ≡ loaded t) × IsClock t

parsed :
    (v : Text) (m : Loaded (ℕ × ℕ))
    → parse_hour v ≡ m
    → Gives IsClock m
    → Gives Clocked (m >>= λ _. loaded v)
parsed v (loaded t) e g = Gives-loaded v (t, e, g.at t refl)
parsed v (refused x) e g = Gives-refused x

hour_env-Clocked : (v : Text) → Gives Clocked (hour_env v)
unfolding hour_env parse_hour
hour_env-Clocked [] = Gives-loaded _ ((9, 0), refl, (omega arith, omega arith))
hour_env-Clocked (c ∷ v) = parsed (c ∷ v) (parse_hour (c ∷ v)) refl (parse_hour-IsClock (c ∷ v))

zone_env-load_location :
    (p : Platform) (tz : Text) → Gives (λ z. p.load_location z ≡ true) (zone_env p tz)
zone_env-load_location p tz = Gives-require _ _ tz (λ q. q)

optional_url-valid :
    (p : Platform) (key v : Text)
    → Gives (λ u. u ≢ [] → valid_http_url p u ≡ true) (optional_url p key v)
unfolding optional_url
optional_url-valid p key [] = Gives-loaded [] (λ ne. ground arith)
optional_url-valid p key (c ∷ v) =
    Gives-require (valid_http_url p (c ∷ v)) (bad_url key (c ∷ v)) (c ∷ v) (λ e ne. e)

read_seed-IsLabelled : (entry : Text) → Gives IsLabelled (read_seed entry)
unfolding read_seed cut trim_space
read_seed-IsLabelled entry =
    Gives-bind {P = λ x. Unit} (or_refused (seed_form entry) (cut b'|' entry)) _
      (Gives-or_refused (seed_form entry) (cut b'|' entry) (λ a e. tt))
      (λ (label, u) _.
        Gives-require (not (is_empty (trim_space label) || is_empty (trim_space u)))
          (empty_seed entry) _ (ground arith))

read_seeds-IsLabelled : (es : List Text) → Gives (All IsLabelled) (read_seeds es)
unfolding read_seeds
read_seeds-IsLabelled [] = Gives-loaded [] tt
read_seeds-IsLabelled (raw ∷ es) = elim (Bool-cases (is_empty (trim_space raw))) [
  | inl e ↦ rw e (read_seeds-IsLabelled es)
  | inr e ↦ rw e (
      Gives-bind (read_seed (trim_space raw)) _ (read_seed-IsLabelled (trim_space raw)) (λ seed ps.
        Gives-bind (read_seeds es) _ (read_seeds-IsLabelled es)
          (λ seeds pss. Gives-loaded (seed ∷ seeds) (ps, pss))))
]

seed_urls_of-IsLabelled : (raw : Text) → Gives (All IsLabelled) (seed_urls_of raw)
unfolding seed_urls_of
seed_urls_of-IsLabelled raw = elim (Bool-cases (is_empty (trim_space raw))) [
  | inl e ↦ rw e (Gives-loaded [] tt)
  | inr e ↦ rw e (read_seeds-IsLabelled (split b',' raw))
]

load-Gives : (p : Platform) (g : Getenv) → Gives (IsValid p) (load p g)
unfolding load
load-Gives p g =
    Gives-bind _ _ (int_env-at_least g (codes "FETCH_RETRIES") 0 (pos 3) refl) λ retries r.
      Gives-bind _ _ (duration_env-is_positive p g (codes "FETCH_TIMEOUT") (seconds 30) refl)
        λ timeout t1.
          Gives-bind _ _
            (duration_env-is_positive p g (codes "MAX_BROWSER_TIMEOUT") (seconds 60) refl)
            λ browser t2.
              Gives-bind _ _
                (duration_env-is_positive p g (codes "FETCH_RATE_LIMIT") (seconds 60) refl)
                λ rate t3. Gives-bind _ _ (zone_env-load_location p _) λ zone z.
                  Gives-bind _ _ (hour_env-Clocked (g (codes "DAILY_HOUR"))) λ hour h.
                    Gives-bind _ _ (Gives-any (bool_env p (g (codes "RUN_ON_START")))) λ at_boot _.
                      Gives-bind _ _ (int_env-at_least g (codes "MAX_DAILY") 1 (pos 15) refl)
                        λ daily d.
                          Gives-bind _ _ (Gives-any (level_env p (g (codes "LOG_LEVEL"))))
                            λ level _.
                              Gives-bind _ _ (seed_urls_of-IsLabelled (g (codes "SEED_URLS")))
                                λ seeds s.
                                  Gives-bind _ _ (optional_url-valid p (codes "FLARESOLVERR_URL") _)
                                    λ solver u1.
                                      Gives-bind _ _
                                        (optional_url-valid p (codes "ZONAPROP_PROXY")
                                          (g (codes "ZONAPROP_PROXY")))
                                        λ proxy u2. Gives-loaded _ (record {
                                          retries = r;
                                          timeouts = (t1, t2, t3);
                                          zone = z;
                                          hour = h;
                                          daily = d;
                                          seeds = s;
                                          solver = u1;
                                          proxy = u2;
                                        })

-- Settings that `Load` returns are usable: the limits are respected, the zone exists, the hour of the
-- day is one, and each URL that is set is a URL of http or https.
pub load-IsValid : (p : Platform) (g : Getenv) (c : Config) → load p g ≡ loaded c → IsValid p c
load-IsValid p g c e = (load-Gives p g).at c e

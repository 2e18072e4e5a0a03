-- ===== src/Config.antt =====
-- internal/config/config.go: the configuration, read from the environment. Durations are int64
-- nanoseconds; what package time, net/url, net and log/slog read or write is a parameter.
pub mod Settings
pub mod Seeds
mod Gives
pub mod Valid
pub mod Rendered
unfoldable pub use Settings.*
unfoldable pub use Seeds.*
use property_search.Prelude.{
  ℕ, ℤ, pos, negsuc, Text, codes, is_empty, Bool, true, false, ◌&&◌, ◌||◌, Option, none, some, List,
  [], ◌∷◌, not, ltb, leb, ◌*◌, text_eq, if◌then◌else◌, trim_space, trim_suffix, parse_int, split,
  cut,
}

abbrev pub is_positive : ℤ → Bool
is_positive (pos n) = ltb 0 n
is_positive (negsuc n) = false

abbrev pub at_least : ℕ → ℤ → Bool
at_least min (pos n) = leb min n
at_least min (negsuc n) = false

abbrev positive_duration : ConfigError → Option ℤ → Loaded ℤ
positive_duration e none = refused e
positive_duration e (some d) = require (is_positive d) e d

-- An unset variable leaves the default.
unfoldable pub duration_env : Platform → Getenv → Text → ℤ → Loaded ℤ
duration_env p getenv key default =
    let v = getenv key in
    if is_empty v
    then loaded default
    else positive_duration (bad_duration key v) (p.parse_duration v)

abbrev bounded_int : ConfigError → ℕ → Option ℤ → Loaded ℤ
bounded_int e min none = refused e
bounded_int e min (some n) = require (at_least min n) e n

unfoldable pub int_env : Getenv → Text → ℕ → ℤ → Loaded ℤ
unfolding parse_int
int_env getenv key min default =
    let v = getenv key in
    if is_empty v then loaded default else bounded_int (bad_integer key v min) min (parse_int v)

abbrev pub text_env : Getenv → Text → Text → Text
text_env getenv key default = let v = getenv key in if is_empty v then default else v

-- A number of `limit` values from 0 on.
abbrev pub clock_part : ConfigError → ℕ → Option ℤ → Loaded ℕ
clock_part e limit none = refused e
clock_part e limit (some (pos n)) = require (ltb n limit) e n
clock_part e limit (some (negsuc n)) = refused e

unfoldable pub parse_hour : Text → Loaded (ℕ × ℕ)
unfolding cut trim_space parse_int
parse_hour v = do
  (hour, minute) ← or_refused (hour_form v) (cut b':' (trim_space v))
  h ← clock_part (bad_hour v) 24 (parse_int hour)
  m ← clock_part (bad_minute v) 60 (parse_int minute)
  loaded (h, m)

abbrev default_hour : Loaded (ℕ × ℕ) → ℕ × ℕ
default_hour (loaded hm) = hm
default_hour (refused e) = (9, 0)

unfoldable pub daily_hour_parts : Config → ℕ × ℕ
unfolding parse_hour
daily_hour_parts c = default_hour (parse_hour c.daily_hour)

unfoldable pub database_url : Platform → Config → Text
database_url p c = p.url_string (record {
  scheme = codes "postgres";
  user = c.postgres_user;
  password = c.postgres_password;
  host = p.join_host_port c.postgres_host c.postgres_port;
  path = b'/' ∷ c.postgres_db;
})

abbrev is_http : Option UrlParts → Bool
is_http none = false
is_http (some u) =
    (text_eq u.scheme (codes "http") || text_eq u.scheme (codes "https")) && not (is_empty u.host)

unfoldable pub valid_http_url : Platform → Text → Bool
valid_http_url p raw = is_http (p.parse_url raw)

abbrev zone_env : Platform → Text → Loaded Text
zone_env p tz = require (p.load_location tz) (bad_zone tz) tz

unfoldable pub hour_env : Text → Loaded Text
unfolding parse_hour
hour_env v = if is_empty v then loaded (codes "09:00") else (do _ ← parse_hour v; loaded v)

abbrev bool_env : Platform → Text → Loaded Bool
bool_env p v = if is_empty v then loaded false else or_refused (bad_boolean v) (p.parse_bool v)

-- `slog.LevelInfo` is 0.
abbrev level_env : Platform → Text → Loaded ℤ
level_env p v = if is_empty v then loaded (pos 0) else or_refused (bad_level v) (p.parse_level v)

unfoldable pub optional_url : Platform → Text → Text → Loaded Text
unfolding valid_http_url
optional_url p key v = require (is_empty v || valid_http_url p v) (bad_url key v) v

abbrev pub seconds : ℕ → ℤ
seconds n = pos (n * 1000000000)

unfoldable pub load : Platform → Getenv → Loaded Config
unfolding int_env duration_env seed_urls_of trim_suffix
load p getenv = do
  retries ← int_env getenv (codes "FETCH_RETRIES") 0 (pos 3)
  timeout ← duration_env p getenv (codes "FETCH_TIMEOUT") (seconds 30)
  browser ← duration_env p getenv (codes "MAX_BROWSER_TIMEOUT") (seconds 60)
  rate ← duration_env p getenv (codes "FETCH_RATE_LIMIT") (seconds 60)
  zone ← zone_env p (text_env getenv (codes "SCHEDULE_TZ") (codes "America/Argentina/Buenos_Aires"))
  hour ← hour_env (getenv (codes "DAILY_HOUR"))
  at_boot ← bool_env p (getenv (codes "RUN_ON_START"))
  daily ← int_env getenv (codes "MAX_DAILY") 1 (pos 15)
  level ← level_env p (getenv (codes "LOG_LEVEL"))
  seeds ← seed_urls_of (getenv (codes "SEED_URLS"))
  solver ←
      optional_url p (codes "FLARESOLVERR_URL")
        (trim_suffix (getenv (codes "FLARESOLVERR_URL")) (codes "/"))
  proxy ← optional_url p (codes "ZONAPROP_PROXY") (getenv (codes "ZONAPROP_PROXY"))
  loaded (record {
    telegram_bot_token = getenv (codes "TELEGRAM_BOT_TOKEN");
    telegram_chat_id = getenv (codes "TELEGRAM_CHAT_ID");
    flaresolverr_url = solver;
    zonaprop_proxy = proxy;
    fetch_retries = retries;
    fetch_timeout = timeout;
    max_browser_timeout = browser;
    fetch_rate_limit = rate;
    postgres_host = text_env getenv (codes "POSTGRES_HOST") (codes "localhost");
    postgres_port = text_env getenv (codes "POSTGRES_PORT") (codes "5432");
    postgres_user = text_env getenv (codes "POSTGRES_USER") (codes "zonaprop");
    postgres_password = getenv (codes "POSTGRES_PASSWORD");
    postgres_db = text_env getenv (codes "POSTGRES_DB") (codes "zonaprop");
    seed_chat_id = getenv (codes "SEED_CHAT_ID");
    seed_urls = seeds;
    schedule_tz = zone;
    daily_hour = hour;
    run_on_start = at_boot;
    max_daily = daily;
    log_level = level;
  })

-- ===== src/Config/Settings.antt =====
-- internal/config/config.go: the settings, the errors of loading them, and what other packages give.
use property_search.Prelude.{ℕ, ℤ, Text, Bool, true, false, Option, none, some, List}

-- The errors of `Load`: a variable that is refused, with its value.
pub data ConfigError : Type 0 where
  bad_integer : Text → Text → ℕ → ConfigError
  bad_duration : Text → Text → ConfigError
  bad_zone bad_boolean bad_level : Text → ConfigError
  hour_form bad_hour bad_minute : Text → ConfigError
  seed_form empty_seed : Text → ConfigError
  bad_url : Text → Text → ConfigError

pub data Loaded (A : Type 0) : Type 0 where
  loaded : A → Loaded A
  refused : ConfigError → Loaded A

infixl 5 ◌>>=◌
abbrev pub ◌>>=◌ : {A B : Type 0} → Loaded A → (A → Loaded B) → Loaded B
loaded a >>= f = f a
refused e >>= f = refused e

abbrev pub or_refused : {A : Type 0} → ConfigError → Option A → Loaded A
or_refused e none = refused e
or_refused e (some a) = loaded a

abbrev pub require : {A : Type 0} → Bool → ConfigError → A → Loaded A
require true e a = loaded a
require false e a = refused e

abbrev pub Getenv : Type 0
Getenv = Text → Text

-- What `url.Parse` says of a URL, and what `url.URL` is built from.
pub record UrlParts : Type 0 where
  pub scheme : Text
  pub host : Text

pub record DsnParts : Type 0 where
  pub scheme : Text
  pub user : Text
  pub password : Text
  pub host : Text
  pub path : Text

pub record Platform : Type 0 where
  pub load_location : Text → Bool
  pub parse_duration : Text → Option ℤ
  pub parse_bool : Text → Option Bool
  pub parse_level : Text → Option ℤ
  pub parse_url : Text → Option UrlParts
  pub join_host_port : Text → Text → Text
  pub url_string : DsnParts → Text

pub record SeedUrl : Type 0 where
  pub label : Text
  pub url : Text

pub record Config : Type 0 where
  pub telegram_bot_token : Text
  pub telegram_chat_id : Text
  pub flaresolverr_url : Text
  pub zonaprop_proxy : Text
  pub fetch_retries : ℤ
  pub fetch_timeout : ℤ
  pub max_browser_timeout : ℤ
  pub fetch_rate_limit : ℤ
  pub postgres_host : Text
  pub postgres_port : Text
  pub postgres_user : Text
  pub postgres_password : Text
  pub postgres_db : Text
  pub seed_chat_id : Text
  pub seed_urls : List SeedUrl
  pub schedule_tz : Text
  pub daily_hour : Text
  pub run_on_start : Bool
  pub max_daily : ℤ
  pub log_level : ℤ

-- ===== src/Tests/Configured.antt =====
-- The theorems about the configuration at concrete variables.
use property_search.Prelude.{
  ◌≡◌, refl, true, false, [], ◌∷◌, ◌++◌, none, some, pos, codes, text_eq, if◌then◌else◌, trim_space,
  trim_suffix, parse_int,
}
use property_search.Config.{
  Platform, Config, SeedUrl, Getenv, load, loaded, int_env, duration_env, seed_urls_of, seconds,
  parse_hour, read_seeds, read_seed, hour_env, optional_url,
}
use property_search.Config.Valid.{IsValid, load-IsValid}

abbrev pub platform : Platform
platform = record {
  load_location = λ z. true;
  parse_duration = λ d. some (pos 5);
  parse_bool = λ b. none;
  parse_level = λ l. none;
  parse_url = λ u. some (record { scheme = codes "http"; host = codes "solver" });
  join_host_port = λ h p. h ++ b':' ∷ p;
  url_string = λ u. u.host;
}

abbrev pub variables : Getenv
variables key =
    if text_eq key (codes "MAX_DAILY")
    then codes "20"
    else if text_eq key (codes "DAILY_HOUR")
    then codes "08:30"
    else if text_eq key (codes "SEED_URLS")
    then codes "norte|u, ,"
    else if text_eq key (codes "FLARESOLVERR_URL")
    then codes "http://solver/"
    else []

abbrev seed : SeedUrl
seed = record { label = codes "norte"; url = codes "u" }

abbrev pub settings : Config
settings = record {
  telegram_bot_token = [];
  telegram_chat_id = [];
  flaresolverr_url = codes "http://solver";
  zonaprop_proxy = [];
  fetch_retries = pos 3;
  fetch_timeout = seconds 30;
  max_browser_timeout = seconds 60;
  fetch_rate_limit = seconds 60;
  postgres_host = codes "localhost";
  postgres_port = codes "5432";
  postgres_user = codes "zonaprop";
  postgres_password = [];
  postgres_db = codes "zonaprop";
  seed_chat_id = [];
  seed_urls = seed ∷ [];
  schedule_tz = codes "America/Argentina/Buenos_Aires";
  daily_hour = codes "08:30";
  run_on_start = false;
  max_daily = pos 20;
  log_level = pos 0;
}

loads : load platform variables ≡ loaded settings
unfolding load hour_env optional_url int_env duration_env seed_urls_of read_seeds read_seed text_eq
    trim_suffix trim_space parse_int parse_hour
loads = refl

load-IsValid_example : IsValid platform settings
load-IsValid_example = load-IsValid platform variables settings loads

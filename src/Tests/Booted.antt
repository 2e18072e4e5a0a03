-- ===== src/Tests/Booted.antt =====
-- The theorems about the start of the process and its schedule at concrete data.
use property_search.Prelude.{
  ℕ, ◌+◌, ◌*◌, ◌/◌, ◌≤◌, ◌<◌, ◌≢◌, refl, true, false, ◌⊎◌, List, Text, [], arith, codes,
  ascii_casing, text_eq, to_lower, has_suffix,
}
use property_search.Model.{Delivery}
use property_search.Scheduler.{Zone, next_run}
use property_search.Scheduler.First.{IsCalendar, next_run_first}
use property_search.SearchUrl.{host_allowed}
use property_search.Telegram.{Notifier, photo_request, photo_url_allowed}
use property_search.Telegram.Requests.Photos.{IsServedBy, photo_request-IsServedBy}
use property_search.Bot.Main.{Machine, main}
use property_search.Bot.Main.Order.{Ordered, main-Ordered}
use property_search.Tests.Started.{run_file, files, third, ops, fresh}
use property_search.Tests.Samples.{world, flat}
use property_search.Tests.Configured.{platform, variables}
use property_search.Tests.Chatted.{outside}
use property_search.Tests.Read.{net, card}

-- A zone without clock changes, in minutes.
abbrev utc : Zone
utc = record {
  day_of = λ t. t / 1440;
  date = λ d h m. d * 1440 + (h * 60 + m);
  add_day = λ t. t + 1440;
}

utc-IsCalendar : IsCalendar utc 9 30
utc-IsCalendar = record {
  same_day = λ d. omega arith;
  next_day = λ d. omega arith;
  ordered = λ s t h. omega arith;
}

next_run_first_example :
    (3000 < next_run utc 3000 9 30)
    × ((d : ℕ) → (utc.date d 9 30 ≤ 3000) ⊎ (next_run utc 3000 9 30 ≤ utc.date d 9 30))
next_run_first_example = next_run_first utc 9 30 utc-IsCalendar 3000

abbrev live : Notifier
live = record { token = codes "1:a"; chat_id = []; api_base = codes "https://t"; has_img = true }

abbrev with_photo : Delivery
with_photo = record card { item = record flat { photo_url = codes "https://www.zonaprop.com.ar" } }

photo_request-IsServedBy_example :
    (live.token ≢ [])
    × (IsServedBy net ascii_casing (codes "zonapropcdn.com") (codes "https://www.zonaprop.com.ar")
        ⊎ IsServedBy net ascii_casing
            (codes "zonaprop.com.ar")
            (codes "https://www.zonaprop.com.ar"))
unfolding photo_request photo_url_allowed host_allowed text_eq to_lower has_suffix
photo_request-IsServedBy_example =
    photo_request-IsServedBy net ascii_casing live with_photo (codes "https://www.zonaprop.com.ar")
      refl

-- Postgres answers at the third attempt, and no migration is lost.
abbrev machine : Machine (List Text)
machine = record {
  platform = platform;
  getenv = variables;
  fuel = 9;
  dials = third;
  started_at = 7;
  exec_sql = run_file;
  fails = λ n. false;
  files = files;
  seed_ops = ops;
  order = true;
  outside = outside;
  day_of = λ t. 0;
}

main-Ordered_example : Ordered machine fresh world (main machine (fresh, world))
main-Ordered_example = main-Ordered machine fresh world

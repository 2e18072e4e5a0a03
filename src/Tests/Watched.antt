-- ===== src/Tests/Watched.antt =====
-- A message with a URL of the portal, to a user who watches one already.
use property_search.Prelude.{refl, true, [], ◌∷◌, some, codes, text_eq, inl}
use property_search.Prelude.{text_eq, to_lower, has_suffix, trim_suffix, trim_space}
use property_search.Store.{World, State}
use property_search.Outside.{Outside}
use property_search.SearchUrl.{is_zonaprop_url, inject_recent_sort, host_allowed, sorted_path}
use property_search.Digest.{run_for_user}
use property_search.Chat.Updates.{Message}
use property_search.Chat.Onboarding.Portal.{IsFromPortal, OnlyPortal}
use property_search.Chat.Messages.{Wiring, handle_message}
use property_search.Chat.Messages.Origin.{handle_message-OnlyPortal}
use property_search.Tests.Samples.{world, db, user, search}
use property_search.Tests.Chatted.{outside}

-- Every address is a path of the portal.
abbrev portal : Outside
portal = record outside {
  net = record {
    parse = λ t. some (record {
      scheme = codes "https";
      host = codes "zonaprop.com.ar";
      path = t;
      raw_query = [];
      fragment = [];
    });
    resolve_reference = λ base ref. base;
    hostname = λ h. h;
    render = λ x. x.path;
    query = λ t. [];
    encode = λ q. [];
    equal_fold = text_eq;
  };
}

abbrev wiring : Wiring
wiring = record {
  outside = portal;
  runner = some (run_for_user portal 5);
  like = λ u c i w. w;
  day_of = λ t. t;
}

abbrev watching : World
watching = record world {
  db = record db {
    users = record user { state = State.await_url } ∷ [];
    search_urls = record search { url = codes "a-orden-publicado-descendente.html" } ∷ [];
  };
}

a-IsFromPortal : IsFromPortal portal (codes "a-orden-publicado-descendente.html")
unfolding is_zonaprop_url host_allowed inject_recent_sort sorted_path text_eq to_lower has_suffix
    trim_suffix trim_space
a-IsFromPortal = record { given = codes "a.html"; changed = true; on_portal = refl; sorted = refl }

abbrev url_sent : Message
url_sent = record {
  message_id = 9;
  sender = some 7;
  chat = some (record { id = 70; kind = codes "private" });
  text = codes "https://zonaprop.com.ar/b.html";
  caption = [];
}

handle_message-OnlyPortal_example : OnlyPortal portal (handle_message wiring url_sent watching).1.db
handle_message-OnlyPortal_example =
    handle_message-OnlyPortal wiring 5 url_sent watching refl ((a-IsFromPortal, tt), (inl refl, tt))

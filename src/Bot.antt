-- ===== src/Bot.antt =====
-- cmd/bot/main.go: what the process does at its start, and the cycle that the scheduler triggers.
-- Signals and the loggers are left out; the two goroutines stand on their own.
pub mod Start
pub mod Main
use property_search.Prelude.{
  ℕ, zero, suc, ℤ, pos, negsuc, Text, codes, is_empty, Bool, true, false, ◌++◌, ◌*◌, List, [], ◌∷◌,
  map, Option, none, some, itoa, if◌then◌else◌, Casing,
}
use property_search.Store.{
  Action, Result, ok, err, commands_published, menu_button_set, pure, attempt, call_api, now, ◌>>=◌,
  ◌>>◌,
}
use property_search.Config
use property_search.Config.{Config}
use property_search.Database.Seed.{SeedInput, SeedOps, seed}
use property_search.Repo.Users.{User, list_active_users}
use property_search.Score.{FloatOps, retrain}
use property_search.Outside.{Outside}
use property_search.Digest.{Ran, run_daily}
use property_search.Validate.{run_once}
use property_search.Chat.Poller.{run}
use property_search.Chat.Commands.{bot_commands}

-- `validatorInterval`, in nanoseconds.
abbrev pub validator_interval : ℕ
validator_interval = 10 * (60 * 1000000000)

-- `onOff`
abbrev pub on_off : Text → Text
on_off v = if is_empty v then codes "off" else codes "on"

-- `pollerHolder`, of the host's name, if the system tells it, and the process id.
abbrev host_or_unknown : Option Text → Text
host_or_unknown none = codes "unknown"
host_or_unknown (some host) = host

unfoldable pub poller_holder : Option Text → ℕ → Text
poller_holder host pid = host_or_unknown host ++ b':' ∷ itoa pid

-- `seedInput`
unfoldable pub seed_input : Config → SeedInput
seed_input c = record {
  chat_id = c.seed_chat_id;
  urls = map (λ (s : Config.SeedUrl). record { label = s.label; url = s.url }) c.seed_urls;
}

abbrev set_button : Result (Unit {0}) → Action (Unit {0})
set_button (err e) = pure tt
set_button (ok _) = attempt (call_api menu_button_set) >> pure tt

-- `setupMenu`: the button is not set when the list was refused.
unfoldable pub setup_menu : Text → Action (Unit {0})
setup_menu token =
    if is_empty token
    then pure tt
    else attempt (call_api (commands_published bot_commands)) >>= set_button

module _ (f : FloatOps) (u : Casing) where
  -- The loop of `retrainAll`: a user whose training fails is logged.
  unfoldable pub retrain_each : List User → Action (Unit {0})
  retrain_each [] = pure tt
  retrain_each (user ∷ users) = attempt (retrain f u user.user_id) >> retrain_each users

  -- `retrainAll`
  unfoldable pub retrain_all : Action (Unit {0})
  unfolding retrain_each
  retrain_all = list_active_users >>= retrain_each

abbrev cap_of : ℤ → ℕ
cap_of (pos n) = n
cap_of (negsuc n) = 0

-- `runDigest`: an error of the cycle is logged. `day_of` is the local calendar date.
unfoldable pub run_digest : Outside → (ℕ → ℕ) → Config → Action (Unit {0})
run_digest o day_of c = do t ← now; attempt (run_daily o (cap_of c.max_daily) (day_of t)); pure tt

-- `main` from the seeds up to the training.
abbrev pub prepare : SeedOps → Bool → Outside → Config → Action (Unit {0})
prepare s order o c =
    seed s order (seed_input c) >> setup_menu c.telegram_bot_token >> retrain_all o.floats o.casing

abbrev pub run_at_boot : Outside → (ℕ → ℕ) → Config → Action (Unit {0})
run_at_boot o day_of c = if c.run_on_start then run_digest o day_of c else pure tt

-- `main` from the seeds on, up to the scheduler, in a zone that can be loaded.
unfoldable pub start : SeedOps → Bool → Outside → (ℕ → ℕ) → Config → Action (Unit {0})
unfolding setup_menu retrain_all run_digest seed_input
start s order o day_of c = prepare s order o c >> run_at_boot o day_of c

-- The goroutine of `startPoller`: without a token nothing is polled; how the poller ended is logged.
module _ {U : Type 0} (id_of : U → ℕ) (handle : U → Action (Unit {0})) where
  unfoldable pub start_poller : Text → Text → List (Option (List U)) → Action (Unit {0})
  unfolding run
  start_poller token holder answers =
      if is_empty token then pure tt else attempt (run id_of handle holder answers) >> pure tt

-- The goroutine of `startValidator`: a pass at each tick, for as many as the context lets come; a pass
-- that fails is logged.
unfoldable pub start_validator : Outside → ℕ → Action (Unit {0})
start_validator o zero = pure tt
start_validator o (suc ticks) = attempt (run_once o 0 0) >> start_validator o ticks

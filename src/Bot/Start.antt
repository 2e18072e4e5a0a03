-- ===== src/Bot/Start.antt =====
-- cmd/bot/main.go: the errors of the start.
use mathlib.Core.Path.{subst}
use mathlib.Core.List.{append-nil}
use property_search.Prelude.{
  ℕ, suc, ◌≡◌, refl, sym, ap, Text, is_empty, Bool, true, false, ◌⊎◌, inl, inr, List, [], ◌∷◌, ◌++◌,
  arith, Bool-cases, Casing, if◌then◌else◌, append_assoc,
}
use property_search.Store.{
  World, Error, Event, Action, Result, ok, err, commands_published, menu_button_set, follow, ◌>>◌,
  Result-cases, pure,
}
use property_search.Config.{Config}
use property_search.Database.Seed.{SeedOps, seed}
use property_search.Repo.Users.{User, list_active_users}
use property_search.Score.{FloatOps}
use property_search.Outside.{Outside}
use property_search.Chat.Commands.{bot_commands}
use property_search.Bot.{seed_input, setup_menu, retrain_each, retrain_all, run_digest, start}

-- What a start leaves of the menu in the log of what reached Telegram.
pub data MenuSent : List Event → Type 0 where
  nothing : MenuSent []
  list_only : MenuSent (commands_published bot_commands ∷ [])
  list_and_button : MenuSent (commands_published bot_commands ∷ menu_button_set ∷ [])

-- Publishing the menu never fails the start, leaves the database alone, and never points the button at
-- a list that Telegram has refused.
pub setup_menu-MenuSent :
    (token : Text) (w : World)
    → ((setup_menu token w).0 ≡ ok tt)
      × ((setup_menu token w).1.db ≡ w.db)
      × (sent : List Event) × MenuSent sent
      × ((setup_menu token w).1.log ≡ w.log ++ sent)
unfolding setup_menu
setup_menu-MenuSent token w = elim (Bool-cases (is_empty token)) [
  | inl e ↦ rw e (refl, refl, [], nothing, sym (append-nil w.log))
  | inr e ↦ elim (Bool-cases (w.env.api_fails w.step)) [
    | inl f ↦ rw (e, f) (refl, refl, [], nothing, sym (append-nil w.log))
    | inr f ↦ elim (Bool-cases (w.env.api_fails (suc w.step))) [
      | inl g ↦ rw (e, f, g) (refl, refl, _, list_only, refl)
      | inr g ↦
          rw (e, f, g)
            (
              refl,
              refl,
              _,
              list_and_button,
              append_assoc w.log (commands_published bot_commands ∷ []) (menu_button_set ∷ []),
            )
    ]
  ]
]

retrain_each_ok :
    (f : FloatOps) (u : Casing) (users : List User) (w : World)
    → (retrain_each f u users w).0 ≡ ok tt
unfolding retrain_each
retrain_each_ok f u [] w = refl
retrain_each_ok f u (x ∷ users) w = retrain_each_ok f u users _

run_digest_ok :
    (o : Outside) (day_of : ℕ → ℕ) (c : Config) (w : World) → (run_digest o day_of c w).0 ≡ ok tt
unfolding run_digest
run_digest_ok o day_of c w = refl

-- A training that fails stops neither the others nor the start: it is the reading of the users alone.
retrain_all_err :
    (f : FloatOps) (u : Casing) (w : World) (e : Error)
    → (retrain_all f u w).0 ≡ err e
    → (list_active_users w).0 ≡ err e
unfolding retrain_all
retrain_all_err f u w e h = after (list_active_users w) h
  where
    after : (x : Result (List User) × World) → (follow x (retrain_each f u)).0 ≡ err e → x.0 ≡ err e
    after (ok users, w') q = ground (arith, retrain_each_ok f u users w')
    after (err e', w') q = ground arith

then_ok :
    {A B : Type 0} (m : Action A) (k : Action B) (w : World) (a : A)
    → (m w).0 ≡ ok a
    → (m >> k) w ≡ k (m w).1
then_ok {A} m k w a h = after (m w) h
  where
    after : (x : Result A × World) → x.0 ≡ ok a → follow x (λ _. k) ≡ k x.1
    after (ok b, w') q = refl
    after (err e, w') q = ground arith

then_failed :
    {A B : Type 0} (m : Action A) (k : Action B) (w : World) (e : Error)
    → (m w).0 ≡ err e
    → ((m >> k) w).0 ≡ err e
then_failed {A} m k w e h = after (m w) h
  where
    after : (x : Result A × World) → x.0 ≡ err e → (follow x (λ _. k)).0 ≡ err e
    after (ok b, w') q = ground arith
    after (err e', w') q = ground arith

-- An action fails where its first part does, or where the second one does after it.
data Fails {A B : Type 0} (m : Action A) (k : Action B) (w : World) (e : Error) : Type 0 where
  first_fails : (m w).0 ≡ err e → Fails m k w e
  second_fails : (k (m w).1).0 ≡ err e → (m >> k) w ≡ k (m w).1 → Fails m k w e

then_err :
    {A B : Type 0} (m : Action A) (k : Action B) (w : World) (e : Error)
    → ((m >> k) w).0 ≡ err e
    → Fails m k w e
then_err {A} {B} m k w e h = elim (Result-cases (m w).0) [
  | inl (a, went) ↦
      (let same : (m >> k) w ≡ k (m w).1 = then_ok m k w a went in
        second_fails (subst (λ x. x.0 ≡ err e) same h) same)
  | inr (e', failed) ↦ first_fails (failing (m w) e' failed h)
]
  where
    failing :
        (x : Result A × World) (e' : Error)
        → x.0 ≡ err e'
        → (follow x (λ _. k)).0 ≡ err e
        → x.0 ≡ err e
    failing (ok b, w') e' q r = ground arith
    failing (err e'', w') e' q r = ground arith

run_at_boot_ok :
    (o : Outside) (day_of : ℕ → ℕ) (c : Config) (b : Bool) (w : World)
    → ((if b then run_digest o day_of c else pure tt) w).0 ≡ ok tt
run_at_boot_ok o day_of c true w = run_digest_ok o day_of c w
run_at_boot_ok o day_of c false w = refl

-- Where the start fails, the seeding did, or after it and the menu the users could not be read: a
-- refused menu, a user whose training fails and a cycle at boot that fails do not stop the process.
pub start_err :
    (s : SeedOps) (order : Bool) (o : Outside) (day_of : ℕ → ℕ) (c : Config) (w : World) (e : Error)
    → (start s order o day_of c w).0 ≡ err e
    → ((seed s order (seed_input c) w).0 ≡ err e)
      ⊎ ((list_active_users (setup_menu c.telegram_bot_token (seed s order (seed_input c) w).1).1).0
          ≡ err e)
unfolding start
start_err s order o day_of c w e h =
    let seeding = seed s order (seed_input c) in
    let menu = setup_menu c.telegram_bot_token in
    let training = retrain_all o.floats o.casing in
    elim (then_err (seeding >> menu >> training) _ w e h) [
      | second_fails late _ ↦
          ground
            (arith, run_at_boot_ok o day_of c c.run_on_start ((seeding >> menu >> training) w).1)
      | first_fails early ↦ elim (then_err (seeding >> menu) training w e early) [
        | first_fails first ↦ elim (then_err seeding menu w e first) [
          | first_fails a ↦ inl a
          | second_fails b _ ↦
              ground (arith, (setup_menu-MenuSent c.telegram_bot_token (seeding w).1).0)
        ]
        | second_fails trained _ ↦ elim (Result-cases (seeding w).0) [
          | inl (a, went) ↦ inr (
              subst (λ x. (list_active_users x.1).0 ≡ err e) (then_ok seeding menu w a went)
                (retrain_all_err o.floats o.casing ((seeding >> menu) w).1 e trained))
          | inr (e', failed) ↦
              (let through =
                  then_failed (seeding >> menu) training w e'
                    (then_failed seeding menu w e' failed) in
                let same : e' ≡ e = ground (arith, through, early) in inl (rw failed (ap err same)))
        ]
      ]
    ]

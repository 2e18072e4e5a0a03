-- ===== src/Database/Seed/Once.antt =====
-- internal/db/seed.go: the bootstrap over several starts.
use property_search.Prelude.{
  ◌≡◌, refl, sym, Text, Bool, true, false, ◌||◌, List, [], ◌∷◌, any-snoc, text_eq, text_eq_refl,
  is_empty, Bool-cases, inl, inr,
}
use property_search.Store.{UserRow, SearchRow, SettingRow, Db, World, ok, exec}
use property_search.Store.Invariants.{Keeps, Keeps-exec, Keeps-pure, Keeps-bind}
use property_search.Store.Ensures.{Ensures, Ensures-any, Ensures-query, Ensures-exec, Ensures-bind}
use property_search.Database.Seed.{
  SeedOps, SeedInput, has_setting, insert_setting, global_settings, bootstrap_key, seed_settings,
  bootstrap_applied, bootstrap_unless, mark_bootstrap_applied, seed_user, no_urls, bootstrap, seed,
}

-- The bootstrap has been recorded, and these are the users and the searches.
record IsSeeded (us : List UserRow) (ss : List SearchRow) (d : Db) : Type 0 where
  marked : has_setting bootstrap_key d.settings ≡ true
  same_users : d.users ≡ us
  same_searches : d.search_urls ≡ ss

has_setting-insert_setting :
    (key k v : Text) (d : Db)
    → has_setting key d.settings ≡ true
    → has_setting key (insert_setting k v d).settings ≡ true
unfolding insert_setting
has_setting-insert_setting key k v d h = elim (Bool-cases (has_setting k d.settings)) [
  | inl e ↦ rw e h
  | inr e ↦
      rw
        (
          e,
          any-snoc (λ (r : SettingRow). text_eq r.key key) d.settings
              (record { key = k; value = v }),
          h,
        )
        refl
]

insert_setting-has_setting :
    (k v : Text) (d : Db) → has_setting k (insert_setting k v d).settings ≡ true
unfolding insert_setting
insert_setting-has_setting k v d = elim (Bool-cases (has_setting k d.settings)) [
  | inl e ↦ rw e e
  | inr e ↦
      rw
        (
          e,
          any-snoc (λ (r : SettingRow). text_eq r.key k) d.settings (record { key = k; value = v }),
          text_eq_refl k,
          e,
        )
        refl
]

insert_setting-IsSeeded :
    (us : List UserRow) (ss : List SearchRow) (k v : Text) (d : Db)
    → IsSeeded us ss d
    → IsSeeded us ss (insert_setting k v d)
unfolding insert_setting
insert_setting-IsSeeded us ss k v d h = record {
  marked = has_setting-insert_setting bootstrap_key k v d h.marked;
  same_users = elim (Bool-cases (has_setting k d.settings)) [
    | inl e ↦ rw e h.same_users
    | inr e ↦ rw e h.same_users
  ];
  same_searches = elim (Bool-cases (has_setting k d.settings)) [
    | inl e ↦ rw e h.same_searches
    | inr e ↦ rw e h.same_searches
  ];
}

seed_settings-IsSeeded :
    (us : List UserRow) (ss : List SearchRow) (rows : List SettingRow)
    → Keeps (IsSeeded us ss) (seed_settings rows)
unfolding seed_settings
seed_settings-IsSeeded us ss [] = Keeps-pure tt
seed_settings-IsSeeded us ss (r ∷ rows) =
    Keeps-bind (exec (insert_setting r.key r.value)) _
      (Keeps-exec (insert_setting r.key r.value) (insert_setting-IsSeeded us ss r.key r.value))
      (λ _. seed_settings-IsSeeded us ss rows)

bootstrap-IsSeeded :
    (us : List UserRow) (ss : List SearchRow) (o : SeedOps) (input : SeedInput)
    → Keeps (IsSeeded us ss) (bootstrap o input)
unfolding bootstrap bootstrap_applied bootstrap_unless
bootstrap-IsSeeded us ss o input =
    elim (Bool-cases (is_empty input.chat_id || no_urls input.urls)) [
      | inl e ↦ rw e (Keeps-pure tt)
      | inr e ↦ rw e (record {
        at = λ w h. elim (Bool-cases (w.env.db_fails w.step)) [
          | inl f ↦ rw f h
          | inr f ↦ rw (f, h.marked) h
        ];
      })
    ]

seed-IsSeeded :
    (us : List UserRow) (ss : List SearchRow) (o : SeedOps) (order : Bool) (input : SeedInput)
    → Keeps (IsSeeded us ss) (seed o order input)
unfolding seed
seed-IsSeeded us ss o order input =
    Keeps-bind (seed_settings (global_settings order)) _
      (seed_settings-IsSeeded us ss (global_settings order)) (λ _. bootstrap-IsSeeded us ss o input)

abbrev IsMarked : Db → Type 0
IsMarked d = has_setting bootstrap_key d.settings ≡ true

bootstrap_unless-IsMarked :
    (o : SeedOps) (input : SeedInput) (applied : Bool)
    → Ensures
        (λ d. applied ≡ has_setting bootstrap_key d.settings)
        (λ _. IsMarked)
        (bootstrap_unless o input applied)
unfolding bootstrap_unless mark_bootstrap_applied
bootstrap_unless-IsMarked o input true = record { at = λ w h a e. sym h }
bootstrap_unless-IsMarked o input false =
    Ensures-bind (seed_user o input) _ (Ensures-any (seed_user o input)) (λ _. record {
      at = λ w h.
          (Ensures-exec {P = λ d. Unit} {Q = IsMarked}
              (insert_setting bootstrap_key (o.rfc3339 (w.env.clock w.step)))
              (λ d _.
                insert_setting-has_setting bootstrap_key (o.rfc3339 (w.env.clock w.step)) d)).at
            w tt;
    })

bootstrap-IsMarked :
    (o : SeedOps) (input : SeedInput)
    → (is_empty input.chat_id || no_urls input.urls) ≡ false
    → Ensures (λ d. Unit) (λ _. IsMarked) (bootstrap o input)
unfolding bootstrap bootstrap_applied
bootstrap-IsMarked o input e =
    let bound =
      Ensures-bind {P = λ d. Unit} {R = λ applied d. applied ≡ has_setting bootstrap_key d.settings}
        bootstrap_applied (bootstrap_unless o input)
        (record {
          at = λ w h a q.
              ((Ensures-query {P = λ d. Unit} (λ d. has_setting bootstrap_key d.settings)).at w tt a
                q).1;
        })
        (bootstrap_unless-IsMarked o input) in
    rw e bound

seed-IsMarked :
    (o : SeedOps) (order : Bool) (input : SeedInput)
    → (is_empty input.chat_id || no_urls input.urls) ≡ false
    → Ensures (λ d. Unit) (λ _. IsMarked) (seed o order input)
unfolding seed
seed-IsMarked o order input e =
    Ensures-bind (seed_settings (global_settings order)) _
      (Ensures-any (seed_settings (global_settings order))) (λ _. bootstrap-IsMarked o input e)

-- Once a start with a chat and a URL has been seeded without an error, a later start leaves the users
-- and the searches as it finds them, whatever became of them in between, as long as the settings
-- are still there; also with other variables, and also where it fails.
pub seed-once :
    (o : SeedOps) (order : Bool) (input : SeedInput) (w : World)
    → (is_empty input.chat_id || no_urls input.urls) ≡ false
    → (seed o order input w).0 ≡ ok tt
    → (again : Bool) (changed : SeedInput) (later : World)
    → later.db.settings ≡ (seed o order input w).1.db.settings
    → ((seed o again changed later).1.db.users ≡ later.db.users)
      × ((seed o again changed later).1.db.search_urls ≡ later.db.search_urls)
seed-once o order input w set done again changed later same =
    let marked = (seed-IsMarked o order input set).at w tt tt done in
    let kept =
      (seed-IsSeeded later.db.users later.db.search_urls o again changed).at later
        (record { marked = rw same marked; same_users = refl; same_searches = refl }) in
    (kept.same_users, kept.same_searches)

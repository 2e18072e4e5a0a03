-- ===== src/Database/Migrate/Again.antt =====
-- internal/db/migrate.go: a run after a run that went well.
use property_search.Prelude.{
  ℕ, ℤ, pos, negsuc, Text, ◌≡◌, refl, sym, ap, ◌∙◌, Bool, true, false, ◌||◌, List, [], ◌∷◌, ◌++◌,
  map, Option, none, some, Option-cases, filter, All, arith, inl, inr, ==_refl,
}
use mathlib.Core.Path.{subst}
use mathlib.Core.List.{append-nil}
use property_search.Database.Migrate.{
  Migration, File, Server, int_eq, has_version, load_migrations, migrate,
}
use property_search.Database.Migrate.Prefix.{is_pending, apply_each, IsPrefix, migrate-IsPrefix}

abbrev versions_of : List Migration → List ℤ
versions_of ms = map (λ (m : Migration). m.version) ms

int_eq_refl : (v : ℤ) → int_eq v v ≡ true
int_eq_refl (pos n) = ==_refl n
int_eq_refl (negsuc n) = ==_refl n

any-append :
    (v : ℤ) (xs ys : List ℤ) → has_version v (xs ++ ys) ≡ (has_version v xs || has_version v ys)
any-append v [] ys = refl
any-append v (x ∷ xs) ys = ground (arith, any-append v xs ys)

All-imp :
    {A : Type 0} {P Q : A → Type 0} (xs : List A) → ((x : A) → P x → Q x) → All P xs → All Q xs
All-imp [] f h = tt
All-imp (x ∷ xs) f (hx, h) = (f x hx, All-imp xs f h)

-- Of a list of files, every version is recorded or pending.
IsCovered : List ℤ → List Migration → List Migration → Type 0
IsCovered old pending ms =
    All
      (λ (m : Migration).
        (has_version m.version old || has_version m.version (versions_of pending)) ≡ true)
      ms

pending-IsCovered :
    (old : List ℤ) (ms : List Migration) → IsCovered old (filter (is_pending old) ms) ms
unfolding IsCovered
pending-IsCovered old [] = tt
pending-IsCovered old (m ∷ ms) = (
  ground (arith, int_eq_refl m.version),
  All-imp ms (λ x h. ground arith) (pending-IsCovered old ms),
)

covered_none_pending :
    (vs : List ℤ) (ms : List Migration)
    → All (λ (m : Migration). has_version m.version vs ≡ true) ms
    → filter (is_pending vs) ms ≡ []
covered_none_pending vs [] h = refl
covered_none_pending vs (m ∷ ms) (hm, h) = rw hm (covered_none_pending vs ms h)

module _ {S : Type 0} (exec_sql : Text → S → Option S) where
  whole_covers :
      (ms : List Migration) (s : Server S) (r : Bool × Server S)
      → IsPrefix exec_sql (filter (is_pending s.versions) ms) s r
      → r.0 ≡ true
      → filter (is_pending r.1.versions) ms ≡ []
  unfolding IsCovered
  whole_covers ms s r p ok =
      let all_done : p.done ≡ filter (is_pending s.versions) ms =
        sym (append-nil p.done) ∙ (ap (λ l. p.done ++ l) (sym (p.whole ok)) ∙ p.split) in
      let recorded : r.1.versions ≡ s.versions ++ versions_of (filter (is_pending s.versions) ms) =
        p.versions ∙ ap (λ l. s.versions ++ versions_of l) all_done in
      covered_none_pending r.1.versions ms (
        All-imp ms
          (λ x h.
            rw recorded (
              any-append x.version s.versions (versions_of (filter (is_pending s.versions) ms))
              ∙ h))
          (pending-IsCovered s.versions ms))

  no_pending_no_change :
      (s : Server S) (r : Bool × Server S)
      → IsPrefix exec_sql [] s r
      → (r.1.schema ≡ s.schema) × (r.1.versions ≡ s.versions)
  no_pending_no_change s r p = go p.done p.left p.split p.schema p.versions
    where
      go :
          (done left : List Migration)
          → done ++ left ≡ []
          → apply_each exec_sql done s.schema ≡ some r.1.schema
          → r.1.versions ≡ s.versions ++ versions_of done
          → (r.1.schema ≡ s.schema) × (r.1.versions ≡ s.versions)
      go [] left split schema versions = (ground arith, versions ∙ append-nil s.versions)
      go (m ∷ done) left split schema versions = ground arith

  unread_fails :
      (fails : ℕ → Bool) (files : List File) (s : Server S)
      → load_migrations files ≡ none
      → (migrate exec_sql fails files s).0 ≡ false
  unfolding migrate
  unread_fails fails files s e = ground (arith, e)

  -- After a run that reported success, a run over the same files changes neither the schema nor the
  -- recorded versions, whatever calls fail in it.
  pub migrate-again :
      (fails : ℕ → Bool) (files : List File) (s : Server S)
      → (migrate exec_sql fails files s).0 ≡ true
      → (later : ℕ → Bool) (t : Server S) → t.schema ≡ (migrate exec_sql fails files s).1.schema
      → t.versions ≡ (migrate exec_sql fails files s).1.versions
      → ((migrate exec_sql later files t).1.schema ≡ t.schema)
        × ((migrate exec_sql later files t).1.versions ≡ t.versions)
  migrate-again fails files s ok later t same old = elim (Option-cases (load_migrations files)) [
    | inl e ↦ ground (arith, unread_fails fails files s e)
    | inr (ms, e) ↦
        (let none_left =
            whole_covers ms s (migrate exec_sql fails files s)
              (migrate-IsPrefix exec_sql fails files ms s e) ok in
          let second = migrate-IsPrefix exec_sql later files ms t e in
          let pending_none : filter (is_pending t.versions) ms ≡ [] = rw old none_left in
          no_pending_no_change t (migrate exec_sql later files t) (
            subst (λ l. IsPrefix exec_sql l t (migrate exec_sql later files t)) pending_none
              second))
  ]

-- ===== src/Chat/Onboarding/Portal.antt =====
-- The URLs of the portal, over the statements of the onboarding.
use property_search.Prelude.{
  All-snoc, All-update, ℕ, ◌≡◌, Text, Bool, true, not, ◌&&◌, List, All, find?, any, Option, none,
  some, Option-cases, Bool-cases, inl, inr, ◌⊎◌, is_empty, leb, count,
}
use property_search.Store.{
  State, Result, ok, err, limit_reached, unique_violation, Keeps, Keeps-pure, Keeps-raise,
  Keeps-query, Keeps-exec_result, Keeps-bind, Keeps-transaction, Db, UserRow, SearchRow, query,
  bad_url,
}
use property_search.Repo.Users.{is_user, has_user, set_user_state}
use property_search.Repo.Searches.{
  add_search_url_checked, add_checked, insert_checked, insert_search, label_error, or_bad_url,
  lock_user, owned, same_url, labelled, new_search, max_search_urls_per_user,
}
use property_search.Outside.{Outside}
use property_search.SearchUrl.{normalize, is_zonaprop_url, inject_recent_sort}
use property_search.Chat.Onboarding.{state_url}

module _ (o : Outside) where
  -- A URL on the portal that was given, with the order by recency.
  pub record IsFromPortal (url : Text) : Type 0 where
    pub given : Text
    pub changed : Bool
    pub on_portal : is_zonaprop_url o.net o.casing given ≡ true
    pub sorted : inject_recent_sort o.net o.casing given ≡ some (url, changed)

  -- The URL that a user is to name, if there is one.
  abbrev pub ScratchIsFromPortal : UserRow → Type 0
  ScratchIsFromPortal u =
      (is_empty (state_url u.state_data) ≡ true) ⊎ IsFromPortal (state_url u.state_data)

  -- All URLs of a database are from the portal: those that are watched, and those still to be named.
  abbrev pub OnlyPortal : Db → Type 0
  OnlyPortal d =
      All (λ (r : SearchRow). IsFromPortal r.url) d.search_urls × All ScratchIsFromPortal d.users

  pub set_user_state-Portal :
      (user : ℕ) (s : State) (scratch : List (Text × Text))
      → (is_empty (state_url scratch) ≡ true) ⊎ IsFromPortal (state_url scratch)
      → Keeps OnlyPortal (set_user_state user s scratch)
  unfolding set_user_state
  set_user_state-Portal user s scratch known = Keeps-exec_result _ (λ d h.
      elim (Bool-cases (has_user user d)) [
        | inl e ↦
            rw e (h.0, All-update ScratchIsFromPortal (is_user user) _ d.users (λ x k. known) h.1)
        | inr e ↦ rw e h
      ])

  insert_search-Portal :
      (user : ℕ) (label url norm : Text) (d : Db)
      → IsFromPortal url
      → OnlyPortal d
      → OnlyPortal (insert_search user label url norm d).1
  unfolding insert_search
  insert_search-Portal user label url norm d from h =
      elim (Option-cases (find? (same_url user norm) d.search_urls)) [
        | inr (s, e) ↦
            rw (e, insert_search)
              (elim (Bool-cases
                (any (λ r. labelled user label r && not (same_url user norm r)) d.search_urls)) [
                  | inl taken ↦ rw taken h
                  | inr free ↦ rw free (
                    All-update (λ (r : SearchRow). IsFromPortal r.url) (same_url user norm)
                        (λ r. record r { label = label }) d.search_urls (λ x k. k) h.0,
                    h.1,
                  )
                ])
        | inl e ↦
            rw (e, insert_search)
              (elim (Bool-cases (not (has_user user d))) [
                | inl nobody ↦ rw nobody h
                | inr there ↦
                    rw there (elim (Bool-cases (any (labelled user label) d.search_urls)) [
                      | inl taken ↦ rw taken h
                      | inr free ↦ rw free (
                        All-snoc (λ (r : SearchRow). IsFromPortal r.url) d.search_urls
                            (new_search d.next_search_id user label url norm) h.0 from,
                        h.1,
                      )
                    ])
              ])
      ]

  label_error-Portal : (x : Result ℕ × Db) → OnlyPortal x.1 → OnlyPortal (label_error x).1
  label_error-Portal (ok id, d) h = h
  label_error-Portal (err unique_violation, d) h = h
  label_error-Portal (err e, d) h = h

  insert_checked-Portal :
      (user : ℕ) (label url norm : Text) (n : ℕ) (existing : Bool)
      → IsFromPortal url
      → Keeps OnlyPortal (insert_checked user label url norm n existing)
  insert_checked-Portal user label url norm n existing from =
      elim (Bool-cases (not existing && leb max_search_urls_per_user n)) [
        | inl e ↦ rw e (Keeps-raise limit_reached)
        | inr e ↦ rw e (
            Keeps-exec_result _ (λ d h.
              label_error-Portal (insert_search user label url norm d)
                (insert_search-Portal user label url norm d from h)))
      ]

  pub add_search_url_checked-Portal :
      (user : ℕ) (label url : Text)
      → IsFromPortal url
      → Keeps OnlyPortal (add_search_url_checked (normalize o.net o.casing) user label url)
  unfolding add_search_url_checked add_checked
  add_search_url_checked-Portal user label url from =
      Keeps-bind (or_bad_url (normalize o.net o.casing url)) _
        (normal (normalize o.net o.casing url))
        (λ norm. Keeps-transaction (add_checked user label url norm) (
          Keeps-bind (lock_user user) _ (Keeps-query _) (λ _.
            Keeps-bind (query (λ d. count (owned user) d.search_urls)) _ (Keeps-query _) (λ n.
              Keeps-bind (query (λ d. any (same_url user norm) d.search_urls)) _ (Keeps-query _)
                (λ existing. insert_checked-Portal user label url norm n existing from)))))
    where
      normal : (v : Option Text) → Keeps OnlyPortal (or_bad_url v)
      normal none = Keeps-raise bad_url
      normal (some n) = Keeps-pure n

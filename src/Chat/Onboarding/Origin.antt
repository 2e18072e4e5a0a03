-- ===== src/Chat/Onboarding/Origin.antt =====
-- Where the URLs that are watched come from.
use mathlib.Core.Path.{subst}
use property_search.Prelude.{
  All-find?, ℕ, ◌≡◌, refl, sym, Text, Bool, true, [], ◌∷◌, ◌++◌, find?, Option, none, some,
  Option-cases, Bool-cases, inl, inr, ◌⊎◌, is_empty, trim_space, has_prefix, to_lower, codes,
  text_eq_refl, arith,
}
use property_search.Store.{
  State, await_label, await_url, idle, ready, stopped, World, Result, ok, err, limit_reached, tick,
  label_taken, Keeps, Keeps-pure, Keeps-raise, Keeps-attempt, Keeps-call_api, Keeps-bind, attempt,
  text_sent,
}
use property_search.Repo.Users.{UserState, user_state, is_user, select_user, get_user}
use property_search.Repo.Searches.{list_search_urls, add_search_url_checked}
use property_search.Outside.{Outside}
use property_search.SearchUrl.{normalize, is_zonaprop_url, inject_recent_sort}
use property_search.Chat.Updates.{send_text}
use property_search.Chat.Onboarding.{
  LabelVerdict, unusable, too_long, usable, register_search, after_add, registered_text, more_text,
  limit_text, url_key, sort_notice, after_registration_text, complete_search_with_label, state_url,
  begin_search_from_url, keep_url, url_or_guidance, converse, converse_known,
  handle_conversation_input,
}
use property_search.Chat.Onboarding.Portal.{
  IsFromPortal, ScratchIsFromPortal, OnlyPortal, set_user_state-Portal,
  add_search_url_checked-Portal,
}

module _ (o : Outside) where
  pub send-Portal : (chat : ℕ) (t : Text) → Keeps (OnlyPortal o) (send_text chat t)
  send-Portal chat t = Keeps-call_api (text_sent chat t)

  pub list_search_urls-Portal : (user : ℕ) → Keeps (OnlyPortal o) (list_search_urls user)
  unfolding list_search_urls
  list_search_urls-Portal user = record {
    at = λ w h. elim (Bool-cases (w.env.db_fails w.step)) [ inl e ↦ rw e h | inr e ↦ rw e h ];
  }

  after_registration_text-Portal :
      (user : ℕ) (label : Text) → Keeps (OnlyPortal o) (after_registration_text user label)
  unfolding after_registration_text
  after_registration_text-Portal user label =
      Keeps-bind (attempt (list_search_urls user)) _
        (Keeps-attempt (list_search_urls user) (list_search_urls-Portal user))
        (λ r. Keeps-pure (registered_text label (more_text r)))

  after_add-Portal :
      (user chat : ℕ) (label : Text) (r : Result ℕ)
      → Keeps (OnlyPortal o) (after_add user chat label r)
  unfolding after_add
  after_add-Portal user chat label (ok id) =
      Keeps-bind _ _ (set_user_state-Portal o user ready [] (inl refl))
        (λ _. Keeps-bind _ _ (after_registration_text-Portal user label) (λ m. send-Portal chat m))
  after_add-Portal user chat label (err limit_reached) =
      Keeps-bind _ _ (Keeps-attempt _ (set_user_state-Portal o user ready [] (inl refl)))
        (λ _. send-Portal chat (limit_text (codes "y volvé a intentar.")))
  after_add-Portal user chat label (err label_taken) = send-Portal chat _
  after_add-Portal user chat label (err e) = Keeps-raise e

  register_search-Portal :
      (user chat : ℕ) (url label : Text) (v : LabelVerdict)
      → IsFromPortal o url
      → Keeps (OnlyPortal o) (register_search o user chat url label v)
  unfolding register_search
  register_search-Portal user chat url label unusable from = send-Portal chat _
  register_search-Portal user chat url label too_long from = send-Portal chat _
  register_search-Portal user chat url label usable from =
      let add = add_search_url_checked (normalize o.net o.casing) user label url in
      Keeps-bind (attempt add) _
        (Keeps-attempt add (add_search_url_checked-Portal o user label url from))
        (λ r. after_add-Portal user chat label r)

  complete_search_with_label-Portal :
      (user chat : ℕ) (found : UserState) (t : Text)
      → (is_empty (state_url found.state_data) ≡ true) ⊎ IsFromPortal o (state_url found.state_data)
      → Keeps (OnlyPortal o) (complete_search_with_label o user chat found t)
  unfolding complete_search_with_label
  complete_search_with_label-Portal user chat found t known =
      elim (Bool-cases (is_empty (state_url found.state_data))) [
        | inl e ↦ rw e (
            Keeps-bind _ _ (Keeps-attempt _ (set_user_state-Portal o user await_url [] (inl refl)))
              (λ _. send-Portal chat (codes "Se me perdió la URL. Mandala de nuevo, por favor.")))
        | inr e ↦ elim known [
          | inl none_there ↦ absurd (ground arith)
          | inr from ↦ rw e (register_search-Portal user chat _ _ _ from)
        ]
      ]

  -- The scratch data of a user who is to name a URL.
  state_url-key : (url : Text) → state_url ((url_key, url) ∷ []) ≡ url
  state_url-key url = rw (text_eq_refl url_key) refl

  begin_search_from_url-Portal :
      (user chat : ℕ) (url : Text) → Keeps (OnlyPortal o) (begin_search_from_url o user chat url)
  unfolding begin_search_from_url
  begin_search_from_url-Portal user chat url =
      elim (Bool-cases (is_zonaprop_url o.net o.casing url)) [
        | inr e ↦ rw e (send-Portal chat _)
        | inl e ↦ rw e (kept (inject_recent_sort o.net o.casing url) refl e)
      ]
    where
      kept :
          (r : Option (Text × Bool))
          → inject_recent_sort o.net o.casing url ≡ r
          → is_zonaprop_url o.net o.casing url ≡ true
          → Keeps (OnlyPortal o) (keep_url o user chat r)
      kept none e on = send-Portal chat _
      kept (some (sorted, changed)) e on =
          Keeps-bind _ _
            (set_user_state-Portal o user await_label ((url_key, sorted) ∷ []) (
              inr (
                subst (IsFromPortal o) (sym (state_url-key sorted))
                  (record { given = url; changed = changed; on_portal = on; sorted = e }))))
            (λ _. send-Portal chat (
              codes "Perfecto. ¿Cómo la llamo? Un nombre corto, por ejemplo `San Isidro 3amb`."
              ++ sort_notice o changed))

  url_or_guidance-Portal :
      (user chat : ℕ) (t : Text) → Keeps (OnlyPortal o) (url_or_guidance o user chat t)
  url_or_guidance-Portal user chat t =
      elim (Bool-cases (has_prefix (to_lower o.casing (trim_space t)) (codes "http"))) [
        | inl e ↦ rw e (begin_search_from_url-Portal user chat t)
        | inr e ↦ rw e (send-Portal chat _)
      ]

  converse-Portal :
      (user chat : ℕ) (found : UserState) (t : Text) (s : State)
      → (is_empty (state_url found.state_data) ≡ true) ⊎ IsFromPortal o (state_url found.state_data)
      → Keeps (OnlyPortal o) (converse o user chat found t s)
  unfolding converse
  converse-Portal user chat found t await_label known =
      complete_search_with_label-Portal user chat found t known
  converse-Portal user chat found t await_url known = url_or_guidance-Portal user chat t
  converse-Portal user chat found t idle known = url_or_guidance-Portal user chat t
  converse-Portal user chat found t ready known = url_or_guidance-Portal user chat t
  converse-Portal user chat found t stopped known = url_or_guidance-Portal user chat t
  converse-Portal user chat found t (State.other []) known = url_or_guidance-Portal user chat t
  converse-Portal user chat found t (State.other (c ∷ s)) known = send-Portal chat _

  converse_known-Portal :
      (user chat : ℕ) (t : Text) (w : World)
      → OnlyPortal o w.db
      → OnlyPortal o (converse_known o user chat t (select_user user w.db) (tick w)).1.db
  converse_known-Portal user chat t w h = elim (Option-cases (find? (is_user user) w.db.users)) [
    | inl e ↦ rw (e, select_user) ((send-Portal chat _).at (tick w) h)
    | inr (r, e) ↦
        rw (e, select_user)
          ((converse-Portal user chat (user_state r) t r.state
              (All-find? (ScratchIsFromPortal o) (is_user user) w.db.users r h.1 e)).at
            (tick w) h)
  ]

  -- Whatever a user writes in the conversation, in whatever state it is, and whatever call fails on the
  -- way: if every URL that is watched, or that a user is still to name, was given as one of the portal
  -- and then sorted by recency, that holds afterwards.
  pub handle_conversation_input-OnlyPortal :
      (user chat : ℕ) (t : Text) (w : World)
      → OnlyPortal o w.db
      → OnlyPortal o (handle_conversation_input o user chat t w).1.db
  unfolding handle_conversation_input get_user
  handle_conversation_input-OnlyPortal user chat t w h = elim (Bool-cases (w.env.db_fails w.step)) [
    | inl e ↦ rw e h
    | inr e ↦ rw e (converse_known-Portal user chat t w h)
  ]

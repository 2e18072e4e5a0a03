-- ===== src/Chat/Onboarding/Limits.antt =====
-- The conversation of onboarding.go and the limits on searches.
use property_search.Prelude.{
  ℕ, Text, Bool, List, [], ◌∷◌, Option, none, some, Bool-cases, inl, inr, is_empty, trim_space,
  has_prefix, to_lower, codes, ◌++◌,
}
use property_search.Store.{
  State, await_label, await_url, idle, ready, stopped, World, Result, ok, err, limit_reached,
  label_taken, Keeps, Keeps-pure, Keeps-raise, Keeps-query, Keeps-exec_result, Keeps-attempt,
  Keeps-call_api, Keeps-bind, attempt, text_sent,
}
use property_search.Repo.Users.{UserState, get_user, has_user, set_user_state}
use property_search.Repo.Searches.{list_search_urls, add_search_url_checked}
use property_search.Repo.Searches.Limits.{WithinLimits, add_search_url_checked-WithinLimits}
use property_search.Outside.{Outside}
use property_search.SearchUrl.{normalize, is_zonaprop_url, inject_recent_sort}
use property_search.Chat.Updates.{send_text}
use property_search.Chat.Onboarding.{
  LabelVerdict, unusable, too_long, usable, register_search, after_add, registered_text, more_text,
  limit_text, url_key, sort_notice, after_registration_text, complete_search_with_label, state_url,
  begin_search_from_url, keep_url, url_or_guidance, converse, converse_known,
  handle_conversation_input,
}

set_user_state-Keeps :
    (user : ℕ) (s : State) (scratch : List (Text × Text))
    → Keeps WithinLimits (set_user_state user s scratch)
unfolding set_user_state
set_user_state-Keeps user s scratch = Keeps-exec_result _ (λ d h.
    elim (Bool-cases (has_user user d)) [
      | inl e ↦ rw e (record { capped = h.capped; one_label = h.one_label; one_url = h.one_url })
      | inr e ↦ rw e h
    ])

send-Keeps : (chat : ℕ) (t : Text) → Keeps WithinLimits (send_text chat t)
send-Keeps chat t = Keeps-call_api (text_sent chat t)

list_search_urls-Keeps : (user : ℕ) → Keeps WithinLimits (list_search_urls user)
unfolding list_search_urls
list_search_urls-Keeps user = record {
  at = λ w h. elim (Bool-cases (w.env.db_fails w.step)) [ inl e ↦ rw e h | inr e ↦ rw e h ];
}

after_registration_text-Keeps :
    (user : ℕ) (label : Text) → Keeps WithinLimits (after_registration_text user label)
unfolding after_registration_text
after_registration_text-Keeps user label =
    Keeps-bind (attempt (list_search_urls user)) _
      (Keeps-attempt (list_search_urls user) (list_search_urls-Keeps user))
      (λ r. Keeps-pure (registered_text label (more_text r)))

after_add-Keeps :
    (user chat : ℕ) (label : Text) (r : Result ℕ) → Keeps WithinLimits (after_add user chat label r)
unfolding after_add
after_add-Keeps user chat label (ok id) =
    Keeps-bind _ _ (set_user_state-Keeps user ready [])
      (λ _. Keeps-bind _ _ (after_registration_text-Keeps user label) (λ m. send-Keeps chat m))
after_add-Keeps user chat label (err limit_reached) =
    Keeps-bind _ _ (Keeps-attempt _ (set_user_state-Keeps user ready []))
      (λ _. send-Keeps chat (limit_text (codes "y volvé a intentar.")))
after_add-Keeps user chat label (err label_taken) = send-Keeps chat _
after_add-Keeps user chat label (err e) = Keeps-raise e

module _ (o : Outside) where
  register_search-Keeps :
      (user chat : ℕ) (url label : Text) (v : LabelVerdict)
      → Keeps WithinLimits (register_search o user chat url label v)
  unfolding register_search
  register_search-Keeps user chat url label unusable = send-Keeps chat _
  register_search-Keeps user chat url label too_long = send-Keeps chat _
  register_search-Keeps user chat url label usable =
      let add = add_search_url_checked (normalize o.net o.casing) user label url in
      Keeps-bind (attempt add) _
        (Keeps-attempt add (record {
          at = add_search_url_checked-WithinLimits (normalize o.net o.casing) user label url;
        }))
        (λ r. after_add-Keeps user chat label r)

  complete_search_with_label-Keeps :
      (user chat : ℕ) (found : UserState) (t : Text)
      → Keeps WithinLimits (complete_search_with_label o user chat found t)
  unfolding complete_search_with_label
  complete_search_with_label-Keeps user chat found t = record {
    at = λ w h. elim (Bool-cases (is_empty (state_url found.state_data))) [
      | inl e ↦ rw e (
          (Keeps-bind _ _ (Keeps-attempt _ (set_user_state-Keeps user await_url []))
              (λ _. send-Keeps chat (codes "Se me perdió la URL. Mandala de nuevo, por favor."))).at
            w h)
      | inr e ↦ rw e ((register_search-Keeps user chat _ _ _).at w h)
    ];
  }

  keep_url-Keeps :
      (user chat : ℕ) (r : Option (Text × Bool)) → Keeps WithinLimits (keep_url o user chat r)
  keep_url-Keeps user chat none = send-Keeps chat _
  keep_url-Keeps user chat (some (url, changed)) =
      Keeps-bind _ _ (set_user_state-Keeps user await_label ((url_key, url) ∷ [])) (λ _.
        send-Keeps chat (
          codes "Perfecto. ¿Cómo la llamo? Un nombre corto, por ejemplo `San Isidro 3amb`."
          ++ sort_notice o changed))

  begin_search_from_url-Keeps :
      (user chat : ℕ) (url : Text) → Keeps WithinLimits (begin_search_from_url o user chat url)
  unfolding begin_search_from_url
  begin_search_from_url-Keeps user chat url = record {
    at = λ w h. elim (Bool-cases (is_zonaprop_url o.net o.casing url)) [
      | inl e ↦ rw e ((keep_url-Keeps user chat (inject_recent_sort o.net o.casing url)).at w h)
      | inr e ↦ rw e ((send-Keeps chat _).at w h)
    ];
  }

  url_or_guidance-Keeps :
      (user chat : ℕ) (t : Text) → Keeps WithinLimits (url_or_guidance o user chat t)
  url_or_guidance-Keeps user chat t = record {
    at = λ w h. elim (Bool-cases (has_prefix (to_lower o.casing (trim_space t)) (codes "http"))) [
      | inl e ↦ rw e ((begin_search_from_url-Keeps user chat t).at w h)
      | inr e ↦ rw e ((send-Keeps chat _).at w h)
    ];
  }

  converse-Keeps :
      (user chat : ℕ) (found : UserState) (t : Text) (s : State)
      → Keeps WithinLimits (converse o user chat found t s)
  unfolding converse
  converse-Keeps user chat found t await_label = complete_search_with_label-Keeps user chat found t
  converse-Keeps user chat found t await_url = url_or_guidance-Keeps user chat t
  converse-Keeps user chat found t idle = url_or_guidance-Keeps user chat t
  converse-Keeps user chat found t ready = url_or_guidance-Keeps user chat t
  converse-Keeps user chat found t stopped = url_or_guidance-Keeps user chat t
  converse-Keeps user chat found t (State.other []) = url_or_guidance-Keeps user chat t
  converse-Keeps user chat found t (State.other (c ∷ s)) = send-Keeps chat _

  converse_known-Keeps :
      (user chat : ℕ) (t : Text) (found : Option UserState)
      → Keeps WithinLimits (converse_known o user chat t found)
  converse_known-Keeps user chat t none = send-Keeps chat _
  converse_known-Keeps user chat t (some found) = converse-Keeps user chat found t found.state

  -- Whatever a user writes in the conversation, in whatever state it is, and whatever call fails on
  -- the way: if no user had more than five searches, nor two under one label or for one URL, that
  -- holds afterwards.
  pub handle_conversation_input-WithinLimits :
      (user chat : ℕ) (t : Text) (w : World)
      → WithinLimits w.db
      → WithinLimits (handle_conversation_input o user chat t w).1.db
  unfolding handle_conversation_input get_user
  handle_conversation_input-WithinLimits user chat t w h =
      (Keeps-bind (get_user user) _ (Keeps-query _)
          (λ found. converse_known-Keeps user chat t found)).at
        w h

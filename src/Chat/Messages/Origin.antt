-- ===== src/Chat/Messages/Origin.antt =====
-- Where the URLs that are watched come from, over every message.
use mathlib.Core.Path.{subst}
use property_search.Prelude.{
  All-snoc, All-update, All-filter, ℕ, ◌≡◌, refl, Text, Bool, true, not, List, [], ◌∷◌, Option,
  none, some, Bool-cases, inl, inr, ltb, leb, trim_space, is_empty, length, ◌==◌,
}
use property_search.Store.{
  await_url, World, SearchRow, Action, Keeps, Keeps-pure, Keeps-query, Keeps-exec,
  Keeps-exec_result, Keeps-if, Keeps-now, Keeps-bind, pure,
}
use property_search.Repo.Users.{
  UserState, is_user, has_user, new_user, get_user, ensure_user, set_user_stopped, delete_user,
}
use property_search.Repo.Searches.{remove_search_url, labelled, max_search_urls_per_user}
use property_search.Repo.Weights.{model_version, scored_rated_deliveries}
use property_search.Repo.Ratings.{rating_counts}
use property_search.Score.{load, agreement, summary_text, bucket_summary}
use property_search.Outside.{Outside}
use property_search.Chat.Updates.{Message, Chat, send_text}
use property_search.Chat.Onboarding.{
  start_onboarding, ensure_new, list_searches, add_url, remove_url, set_stopped, delete_everything,
}
use property_search.Chat.Onboarding.Portal.{
  OnlyPortal, ScratchIsFromPortal, IsFromPortal, set_user_state-Portal,
}
use property_search.Chat.Onboarding.Origin.{
  send-Portal, list_search_urls-Portal, handle_conversation_input-OnlyPortal,
}
use property_search.Chat.Search.Origin.{
  search-Portal, model_version-Portal, load-Portal, run_for_user-Portal,
}
use property_search.Digest.{Ran, run_for_user}
use property_search.Chat.Messages.{
  Wiring, Command, start, help, model, list, addurl, rmurl, stop, buscar, borrardatos, no_command,
  no_such_command, command_of, handle_model, run_command, handle_message, model_buckets,
  with_buckets, max_buckets_shown, run_words, is_private, message_in,
}

module _ (o : Outside) where
  ensure_user-Portal : (user chat : ℕ) → Keeps (OnlyPortal o) (ensure_user user chat)
  unfolding ensure_user
  ensure_user-Portal user chat = Keeps-exec _ (λ d h. elim (Bool-cases (has_user user d)) [
    | inl e ↦ rw e h
    | inr e ↦
        rw e (h.0, All-snoc (ScratchIsFromPortal o) d.users (new_user user chat) h.1 (inl refl))
  ])

  start_onboarding-Portal : (user chat : ℕ) → Keeps (OnlyPortal o) (start_onboarding user chat)
  unfolding start_onboarding get_user
  start_onboarding-Portal user chat = Keeps-bind _ _ (Keeps-query _) (λ found.
      Keeps-bind (ensure_new user chat found) _ (ensured found) (λ _.
        Keeps-bind _ _ (set_user_state-Portal o user await_url [] (inl refl))
          (λ _. send-Portal o chat _)))
    where
      ensured : (found : Option UserState) → Keeps (OnlyPortal o) (ensure_new user chat found)
      ensured none = ensure_user-Portal user chat
      ensured (some u) = Keeps-pure tt

  list_searches-Portal : (user chat : ℕ) → Keeps (OnlyPortal o) (list_searches user chat)
  unfolding list_searches
  list_searches-Portal user chat =
      Keeps-bind _ _ (list_search_urls-Portal o user)
        (λ ss. Keeps-if (length ss == 0) _ _ (send-Portal o chat _) (send-Portal o chat _))

  add_url-Portal : (user chat : ℕ) → Keeps (OnlyPortal o) (add_url user chat)
  unfolding add_url
  add_url-Portal user chat = Keeps-bind _ _ (ensure_user-Portal user chat) (λ _.
      Keeps-bind _ _ (list_search_urls-Portal o user) (λ ss.
        Keeps-if (leb max_search_urls_per_user (length ss)) _ _ (send-Portal o chat _) (
          Keeps-bind _ _ (set_user_state-Portal o user await_url [] (inl refl))
            (λ _. send-Portal o chat _))))

  remove_url-Portal : (user chat : ℕ) (t : Text) → Keeps (OnlyPortal o) (remove_url user chat t)
  unfolding remove_url remove_search_url
  remove_url-Portal user chat t = Keeps-if (is_empty (trim_space t)) _ _ (send-Portal o chat _) (
      Keeps-bind _ _
        (Keeps-exec_result _ (λ d h. (
          All-filter (λ (r : SearchRow). IsFromPortal o r.url)
              (λ r. not (labelled user (trim_space t) r)) d.search_urls h.0,
          h.1,
        )))
        (λ removed. send-Portal o chat _))

  set_stopped-Portal : (user chat : ℕ) (b : Bool) → Keeps (OnlyPortal o) (set_stopped user chat b)
  unfolding set_stopped set_user_stopped
  set_stopped-Portal user chat b =
      Keeps-bind _ _
        (Keeps-exec _ (λ d h.
          (h.0, All-update (ScratchIsFromPortal o) (is_user user) _ d.users (λ x k. k) h.1)))
        (λ _. send-Portal o chat _)

  delete_everything-Portal : (user chat : ℕ) → Keeps (OnlyPortal o) (delete_everything user chat)
  unfolding delete_everything delete_user
  delete_everything-Portal user chat =
      Keeps-bind _ _
        (Keeps-exec _ (λ d h. (
          All-filter (λ (r : SearchRow). IsFromPortal o r.url) (λ r. not (r.user_id == user))
              d.search_urls h.0,
          All-filter (ScratchIsFromPortal o) (λ r. not (r.user_id == user)) d.users h.1,
        )))
        (λ _. send-Portal o chat _)

  agreement-Portal :
      (c : Wiring) (user at : ℕ)
      → Keeps (OnlyPortal o) (agreement c.outside.floats c.day_of user at)
  unfolding agreement scored_rated_deliveries
  agreement-Portal c user at = Keeps-bind _ _ (Keeps-query _) (λ ss. Keeps-pure _)

  rating_counts-Portal : (user : ℕ) → Keeps (OnlyPortal o) (rating_counts user)
  unfolding rating_counts
  rating_counts-Portal user = Keeps-query _

  model_buckets-Portal :
      (c : Wiring) (user version : ℕ) (t : Text)
      → Keeps (OnlyPortal o) (model_buckets c user version t)
  model_buckets-Portal c user version t =
      Keeps-if (ltb 0 version) _ _
        (Keeps-bind (load user) (λ m. pure (with_buckets t (bucket_summary m max_buckets_shown)))
          (load-Portal o user) (λ m. Keeps-pure _))
        (Keeps-pure t)

  handle_model-Portal :
      (c : Wiring) (user chat : ℕ) → Keeps (OnlyPortal o) (handle_model c user chat)
  unfolding handle_model
  handle_model-Portal c user chat =
      Keeps-bind (model_version user) _ (model_version-Portal o user) (λ version.
        Keeps-bind (rating_counts user) _ (rating_counts-Portal user) (λ counts. Keeps-now _ (λ at.
          Keeps-bind (agreement c.outside.floats c.day_of user at) _ (agreement-Portal c user at)
            (λ a.
              Keeps-bind
                (model_buckets c user version (
                  summary_text c.outside.floats version counts.0 counts.1 a.fraction a.samples
                    a.measured))
                (send_text chat) (model_buckets-Portal c user version _) (send-Portal o chat)))))

module _ (c : Wiring)
    (runs : (run : ℕ → ℕ → Action Ran)
      → c.runner ≡ some run
      → (user chat : ℕ) → Keeps (OnlyPortal c.outside) (run user chat)) where
  run_command-Portal :
      (user chat : ℕ) (t : Text) (rest : List Text) (command : Command)
      → Keeps (OnlyPortal c.outside) (run_command c user chat t rest command)
  unfolding run_command
  run_command-Portal user chat t rest start = start_onboarding-Portal c.outside user chat
  run_command-Portal user chat t rest help = send-Portal c.outside chat _
  run_command-Portal user chat t rest model = handle_model-Portal c.outside c user chat
  run_command-Portal user chat t rest list = list_searches-Portal c.outside user chat
  run_command-Portal user chat t rest addurl = add_url-Portal c.outside user chat
  run_command-Portal user chat t rest rmurl = remove_url-Portal c.outside user chat _
  run_command-Portal user chat t rest stop = set_stopped-Portal c.outside user chat true
  run_command-Portal user chat t rest buscar = search-Portal c.outside c.runner runs user chat
  run_command-Portal user chat t rest borrardatos = delete_everything-Portal c.outside user chat
  run_command-Portal user chat t rest no_such_command = send-Portal c.outside chat _
  run_command-Portal user chat t rest no_command = record {
    at = handle_conversation_input-OnlyPortal c.outside user chat t;
  }

  run_words-Portal :
      (user chat : ℕ) (t : Text) (ws : List Text)
      → Keeps (OnlyPortal c.outside) (run_words c user chat t ws)
  run_words-Portal user chat t [] = Keeps-pure tt
  run_words-Portal user chat t (word ∷ rest) = run_command-Portal user chat t rest (command_of word)

  message_in-Portal :
      (msg : Message) (sender : Option ℕ) (chat : Option Chat)
      → Keeps (OnlyPortal c.outside) (message_in c msg sender chat)
  message_in-Portal msg none chat = Keeps-pure tt
  message_in-Portal msg (some user) none = Keeps-pure tt
  message_in-Portal msg (some user) (some chat) =
      Keeps-if (not (is_private c chat)) _ _ (send-Portal c.outside chat.id _)
        (run_words-Portal user chat.id msg.text _)

-- Whatever message comes in to a poller whose /buscar runs the cycle of the user, and whatever call
-- fails on the way: if each URL that is watched, or that a user is still to name, was given as one of the
-- portal and then sorted by recency, that holds afterwards too.
pub handle_message-OnlyPortal :
    (c : Wiring) (max_per_run : ℕ) (msg : Message) (w : World)
    → c.runner ≡ some (run_for_user c.outside max_per_run)
    → OnlyPortal c.outside w.db
    → OnlyPortal c.outside (handle_message c msg w).1.db
unfolding handle_message
handle_message-OnlyPortal c max_per_run msg w wired h =
    (message_in-Portal c runs msg msg.sender msg.chat).at w h
  where
    runs :
        (run : ℕ → ℕ → Action Ran)
        → c.runner ≡ some run
        → (user chat : ℕ) → Keeps (OnlyPortal c.outside) (run user chat)
    runs run e user chat =
        subst (λ r. Keeps (OnlyPortal c.outside) (r user chat)) same
          (run_for_user-Portal c.outside max_per_run user chat)
      where
        same : run_for_user c.outside max_per_run ≡ run
        same = cc

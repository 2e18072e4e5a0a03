-- ===== src/Chat/Search/Origin.antt =====
-- Where the URLs that are watched come from, over the run that /buscar starts.
use property_search.Prelude.{
  length, ℕ, ◌+◌, ◌≡◌, refl, not, List, [], ◌∷◌, Option, none, some, ◌==◌,
}
use property_search.Store.{
  Action, Result, ok, err, no_row, Keeps, Keeps-pure, Keeps-raise, Keeps-query, Keeps-exec_result,
  Keeps-attempt, Keeps-call_api, Keeps-if, Keeps-now, Keeps-query_at, Keeps-bind, Keeps-canceled,
  Keeps-either, query,
}
use property_search.Repo.Searches.{
  SearchUrl, list_valid_search_urls, select_searches, is_valid_status,
}
use property_search.Repo.Listings.{candidates}
use property_search.Repo.Deliveries.{upsert_delivery, mark_delivered}
use property_search.Repo.Weights.{
  model_version, select_version, or_no_row, active_weights, select_weights,
}
use property_search.Score.{load}
use property_search.Outside.{Outside}
use property_search.Digest.{
  Ran, Ranked, record_send, sending, send_each, or_end, rank, send_pending, send_undelivered,
  run_searches, run_locked, run_for_user,
}
use property_search.Chat.Onboarding.Portal.{OnlyPortal}
use property_search.Chat.Search.Indexing.{upsert_delivery-Portal, index_all-Portal}
use property_search.Chat.Onboarding.Origin.{send-Portal}
use property_search.Repo.Users.{get_user}
use property_search.Chat.Search.{
  search, search_known, claimed, claim, run_and_report, has_runner, report, Refusal, refuse_user,
  Claim, granted, wait,
}

module _ (o : Outside) where
  pub model_version-Portal : (user : ℕ) → Keeps (OnlyPortal o) (model_version user)
  unfolding model_version
  model_version-Portal user = Keeps-bind _ or_no_row (Keeps-query (select_version user)) found
    where
      found : (v : Option ℕ) → Keeps (OnlyPortal o) (or_no_row v)
      found none = Keeps-raise no_row
      found (some v) = Keeps-pure v

  pub load-Portal : (user : ℕ) → Keeps (OnlyPortal o) (load user)
  unfolding load active_weights
  load-Portal user =
      Keeps-bind (active_weights user) _
        (Keeps-bind (model_version user) _ (model_version-Portal user) (λ version.
          Keeps-if (version == 0) _ _ (Keeps-pure (0, [])) (
            Keeps-bind (λ w. query (select_weights w.env.collate user version) w) _
              (Keeps-query_at (λ w. select_weights w.env.collate user version))
              (λ rows. Keeps-pure (version, rows)))))
        (λ x. Keeps-pure _)

  record_send-Portal :
      (user position : ℕ) (r : Ranked) → Keeps (OnlyPortal o) (record_send user position r)
  unfolding mark_delivered
  record_send-Portal user position r = Keeps-now _ (λ at.
      Keeps-exec_result (upsert_delivery user r.listing_id at (sending position r))
        (upsert_delivery-Portal o user r.listing_id at (sending position r)))

  send_each-Portal :
      (user chat total i n : ℕ) (rs : List Ranked)
      → Keeps (OnlyPortal o) (send_each user chat total i n rs)
  unfolding send_each
  send_each-Portal user chat total i n [] = Keeps-pure _
  send_each-Portal user chat total i n (r ∷ rs) =
      Keeps-either _ _ _ Keeps-canceled (λ e. Keeps-pure _)
        (λ _.
          Keeps-either _ _ _ (Keeps-call_api _) (λ e. send_each-Portal user chat total (i + 1) n rs)
            (λ _.
              Keeps-either _ _ _ (record_send-Portal user (i + 1) r) (λ e. Keeps-pure _)
                (λ _. send_each-Portal user chat total (i + 1) (n + 1) rs)))

  send_pending-Portal :
      (max_per_run user chat : ℕ) → Keeps (OnlyPortal o) (send_pending o max_per_run user chat)
  unfolding send_pending candidates
  send_pending-Portal max_per_run user chat = Keeps-bind _ _ (Keeps-query _) (λ cs.
      Keeps-bind _ _ (load-Portal user) (λ w. send_each-Portal user chat _ 0 0 (rank o w cs)))

  or_end-Portal : (r : Result Ran) → Keeps (OnlyPortal o) (or_end r)
  or_end-Portal (ok r) = Keeps-pure r
  or_end-Portal (err e) = Keeps-pure _

  send_undelivered-Portal :
      (max_per_run user chat : ℕ) → Keeps (OnlyPortal o) (send_undelivered o max_per_run user chat)
  unfolding send_undelivered
  send_undelivered-Portal max_per_run user chat =
      Keeps-bind _ or_end (Keeps-attempt _ (send_pending-Portal max_per_run user chat))
        or_end-Portal

  run_searches-Portal :
      (max_per_run user chat : ℕ) (ss : List SearchUrl)
      → Keeps (OnlyPortal o) (run_searches o max_per_run user chat ss)
  run_searches-Portal max_per_run user chat [] = Keeps-pure _
  run_searches-Portal max_per_run user chat (s ∷ ss) =
      Keeps-bind _ _ (index_all-Portal o user (s ∷ ss)) (λ fetched.
        Keeps-bind _ _ Keeps-canceled (λ _.
          Keeps-if (fetched == 0) _ _ (Keeps-raise _)
            (send_undelivered-Portal max_per_run user chat)))

  pub list_valid-Portal : (user : ℕ) → Keeps (OnlyPortal o) (list_valid_search_urls user)
  unfolding list_valid_search_urls
  list_valid-Portal user =
      Keeps-query_at
        (λ w. select_searches w.env.collate user (λ r. is_valid_status r.validation_status))

  run_locked-Portal :
      (max_per_run user chat : ℕ) → Keeps (OnlyPortal o) (run_locked o max_per_run user chat)
  unfolding run_locked
  run_locked-Portal max_per_run user chat =
      Keeps-bind _ _ (list_valid-Portal user) (run_searches-Portal max_per_run user chat)

  pub run_for_user-Portal :
      (max_per_run user chat : ℕ) → Keeps (OnlyPortal o) (run_for_user o max_per_run user chat)
  unfolding run_for_user
  run_for_user-Portal max_per_run user chat =
      Keeps-bind _ or_end (Keeps-attempt _ (run_locked-Portal max_per_run user chat)) or_end-Portal

  module _ (runner : Option (ℕ → ℕ → Action Ran))
      (runs : (run : ℕ → ℕ → Action Ran)
        → runner ≡ some run
        → (user chat : ℕ) → Keeps (OnlyPortal o) (run user chat)) where
    reported : (chat : ℕ) (r : Ran) → Keeps (OnlyPortal o) (report chat r)
    reported chat r = Keeps-bind _ _ (Keeps-attempt _ (send-Portal o chat _)) (λ _. Keeps-pure tt)

    ran :
        (user chat : ℕ) (found : Option (ℕ → ℕ → Action Ran))
        → runner ≡ found
        → Keeps (OnlyPortal o) (run_and_report runner user chat found)
    ran user chat none e = Keeps-pure tt
    ran user chat (some run) e = Keeps-bind _ _ (runs run e user chat) (reported chat)

    claimed-Portal : (user chat : ℕ) (c : Claim) → Keeps (OnlyPortal o) (claimed runner user chat c)
    claimed-Portal user chat (wait d) = send-Portal o chat _
    claimed-Portal user chat granted =
        Keeps-bind _ _ (send-Portal o chat _) (λ _. ran user chat runner refl)

    search_known-Portal :
        (user chat : ℕ) (r : Option Refusal)
        → Keeps (OnlyPortal o) (search_known runner user chat r)
    search_known-Portal user chat (some r) = send-Portal o chat _
    search_known-Portal user chat none =
        Keeps-bind (list_valid_search_urls user) _ (list_valid-Portal user) (λ ss.
          Keeps-if (length ss == 0) _ _ (send-Portal o chat _) (
            Keeps-if (not (has_runner runner runner)) _ _ (send-Portal o chat _)
              (Keeps-bind (claim user) _ (record { at = λ w h. h }) (claimed-Portal user chat))))

    pub search-Portal : (user chat : ℕ) → Keeps (OnlyPortal o) (search runner user chat)
    unfolding search get_user
    search-Portal user chat =
        Keeps-bind _ _ (Keeps-query _) (λ found. search_known-Portal user chat (refuse_user found))

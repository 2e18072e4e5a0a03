-- ===== src/Validate/Settled.antt =====
-- What a pass of the validator makes of the searches.
use mathlib.Core.Path.{subst}
use property_search.Prelude.{
  ==_iff, ℕ, ◌+◌, ◌≤◌, ◌≡◌, refl, sym, Text, length, not, List, [], ◌∷◌, count, All, arith, ◌==◌,
  leb, Option, Bool-cases, inl, inr, none, some,
}
use property_search.Store.{
  Keeps-either, Keeps-either_given, Keeps-canceled, SearchRow, Validation, World, Db, tick, Action,
  Result, ok, err, text_sent, Keeps, Keeps-pure, Keeps-raise, Keeps-query, Keeps-exec,
  Keeps-attempt, Keeps-call_api, Keeps-bind, no_row, parse_failed,
}
use property_search.Repo.Searches.{
  SearchUrl, has_id, update_search, mark_search_url_valid, set_search_url_validation, next_check,
  select_pending, pending_validations, search_url_owner, or_no_row,
}
use property_search.Parser.{Card, parse_with_stats}
use property_search.Outside.{Outside, Page, page, broken, fetch_page, read_page}
use property_search.Validate.{
  Outcome, Checked, outage, verdict, backoff_seconds, classify, check, notify, settle_retrying,
  settle, check_each, run_once, or_default, or_stop,
}
use property_search.Validate.Judged.{
  Verdict, valid, valid_empty, invalid, retrying, Seen, listings, no_listings, refused, failed,
  AllJudged, AllJudged-self, Fits, IsJudged, update-AllJudged,
}
use property_search.Validate.Batch.{pending-Fits}

pub notify-Keeps : (P : Db → Type 0) (id : ℕ) (message : Text) → Keeps P (notify id message)
unfolding notify search_url_owner
notify-Keeps P id message = Keeps-attempt _ (
    Keeps-bind _ _ (Keeps-bind _ or_no_row (Keeps-query _) found)
      (λ x. Keeps-call_api (text_sent x.1 message)))
  where
    found : (v : Option (ℕ × ℕ)) → Keeps P (or_no_row v)
    found none = Keeps-raise no_row
    found (some x) = Keeps-pure x

module _ (o : Outside) (max_attempts : ℕ) (xs : List SearchRow) where
  abbrev Judges : {A : Type 0} → Action A → Type 0
  Judges m = Keeps (IsJudged o max_attempts xs) m

  at_url : (x s : Text) (outcome : Outcome) → x ≡ s → Seen o s outcome → Seen o x outcome
  at_url x s outcome l seen = subst (λ u. Seen o u outcome) (sym l) seen

  set_validation-Judges :
      (s : SearchUrl) (status : Validation) (seconds : ℕ)
      → Fits xs s
      → ((x : SearchRow)
          → x.attempts ≡ s.attempts
          → x.url ≡ s.url
          → Verdict o max_attempts x status)
      → Judges (set_search_url_validation s.id status seconds)
  unfolding set_search_url_validation
  set_validation-Judges s status seconds fits verdict = record {
    at = λ w h.
        (Keeps-exec
            (update_search s.id (λ r. record r {
              validation_status = status;
              attempts = r.attempts + 1;
              next_check_at = next_check (w.env.clock w.step) seconds;
              last_checked_at = some (w.env.clock w.step);
            }))
            (λ d k.
              update-AllJudged o max_attempts s _ (λ r. (refl, refl, refl, refl, refl))
                (λ x r a l. verdict x a l) xs d.search_urls fits k)).at
          w h;
  }

  mark_valid-Judges :
      (s : SearchUrl) → Fits xs s → Seen o s.url Outcome.valid → Judges (mark_search_url_valid s.id)
  unfolding mark_search_url_valid
  mark_valid-Judges s fits seen = Keeps-exec _ (λ d k.
      update-AllJudged o max_attempts s
        (λ r. record r { validation_status = Validation.valid; attempts = 0; next_check_at = none })
        (λ r. (refl, refl, refl, refl, refl)) (λ x r a l. valid (at_url _ _ _ l seen)) xs
        d.search_urls fits k)

  settle-Judges :
      (s : SearchUrl) (outcome : Outcome)
      → Fits xs s
      → Seen o s.url outcome
      → Judges (settle max_attempts s outcome)
  unfolding settle settle_retrying
  settle-Judges s Outcome.valid fits seen =
      Keeps-bind _ _ (mark_valid-Judges s fits seen)
        (λ _. Keeps-bind _ _ (notify-Keeps (IsJudged o max_attempts xs) s.id _) (λ _. Keeps-pure 1))
  settle-Judges s Outcome.valid_empty fits seen =
      Keeps-bind _ _
        (set_validation-Judges s Validation.valid_empty 0 fits
          (λ x a l. valid_empty (at_url _ _ _ l seen)))
        (λ _. Keeps-bind _ _ (notify-Keeps (IsJudged o max_attempts xs) s.id _) (λ _. Keeps-pure 1))
  settle-Judges s Outcome.retrying fits seen =
      elim (Bool-cases (leb max_attempts (s.attempts + 1))) [
        | inl e ↦ rw e (
            Keeps-bind _ _
              (set_validation-Judges s Validation.invalid 0 fits
                (λ x a l. invalid (at_url _ _ _ l seen) (ground arith)))
              (λ _.
                Keeps-bind _ _ (notify-Keeps (IsJudged o max_attempts xs) s.id _)
                  (λ _. Keeps-pure 0)))
        | inr e ↦ rw e (
            Keeps-bind _ _
              (set_validation-Judges s Validation.retrying (backoff_seconds (s.attempts + 1)) fits
                (λ x a l. retrying (at_url _ _ _ l seen) (ground arith)))
              (λ _. Keeps-pure 0))
      ]

  check-Judges : (s : SearchUrl) → Judges (check o s)
  unfolding check classify
  check-Judges s = Keeps-bind (fetch_page o s.url) _ (record { at = λ w h. h }) answered
    where
      answered : (answer : Page) → Judges (classify o s.url answer)
      answered (broken kind) = Keeps-pure outage
      answered (page status cards) = elim (Bool-cases (not (status == 200))) [
        | inl e ↦ rw e (Keeps-pure outage)
        | inr e ↦ rw e (
            Keeps-bind (read_page o s.url (page status cards)) _ (read status cards)
              (λ p. Keeps-pure (verdict p)))
      ]
        where
          read :
              (status : ℕ) (cards : Option (List Card))
              → Judges (read_page o s.url (page status cards))
          read status none = Keeps-raise parse_failed
          read status (some cs) = Keeps-pure _

  check-Seen :
      (s : SearchUrl) (w : World) (c : Checked) → (check o s w).0 ≡ ok c → Seen o s.url c.outcome
  unfolding check classify
  check-Seen s w c h = answered (o.pages w.step s.url) refl h
    where
      gives : (a : Checked) → ok a ≡ ok c → Seen o s.url a.outcome → Seen o s.url c.outcome
      gives a q seen =
          let same : a ≡ c = cc in subst (λ (y : Checked). Seen o s.url y.outcome) same seen

      unreadable : ◌≡◌ {A = Result Checked} (err parse_failed) (ok c) → ⊥
      unreadable q = absurd (cc q)

      answered :
          (answer : Page)
          → o.pages w.step s.url ≡ answer
          → (classify o s.url answer (tick w)).0 ≡ ok c
          → Seen o s.url c.outcome
      answered (broken kind) e h = gives outage h (failed w.step kind e)
      answered (page status none) e h = elim (Bool-cases (status == 200)) [
        | inl q ↦ absurd (unreadable (rw q at h))
        | inr q ↦ gives outage (rw q at h) (refused w.step status none e q)
      ]
      answered (page status (some cards)) e h = elim (Bool-cases (status == 200)) [
        | inr q ↦ gives outage (rw q at h) (refused w.step status (some cards) e q)
        | inl q ↦
            (let ok_page : o.pages w.step s.url ≡ page 200 (some cards) =
                ground (arith, e, q, ==_iff status 200) in
              elim (Bool-cases
                (length (parse_with_stats o.net o.casing o.float_parser cards s.url).0 == 0)) [
                  | inl none_left ↦
                      gives _ (rw (q, none_left) at h) (no_listings w.step cards ok_page none_left)
                  | inr there ↦ gives _ (rw (q, there) at h) (listings w.step cards ok_page there)
                ])
      ]

  check_each-Judges :
      (n : ℕ) (ss : List SearchUrl) → All (Fits xs) ss → Judges (check_each o max_attempts n ss)
  unfolding check_each
  check_each-Judges n [] fits = Keeps-pure _
  check_each-Judges n (s ∷ ss) (fs, fits) =
      Keeps-either _ _ _ Keeps-canceled (λ e. Keeps-pure _)
        (λ _.
          Keeps-either_given _ _ (λ c. Seen o s.url c.outcome) _ (check-Judges s) (check-Seen s)
            (λ e. check_each-Judges n ss fits)
            (λ c seen.
              Keeps-bind _ _ (Keeps-attempt _ (settle-Judges s c.outcome fs seen))
                (settled (λ m. check_each-Judges m ss fits))))
    where
      settled :
          ((m : ℕ) → Judges (check_each o max_attempts m ss))
          → (r : Result ℕ) → Judges (or_stop n (λ m. check_each o max_attempts m ss) r)
      settled rest (ok k) = rest (n + k)
      settled rest (err e) = Keeps-pure _

-- A pass of the validator, whatever fails in it: the searches that were settled before are as they were,
-- so that none that was valid is demoted; a search that was to be checked is as it was, or has a verdict
-- and the same owner, label and URL. It is valid only where the portal answered for its URL with a
-- page of status 200 that has listings, valid but empty only where such a page has none. Where the
-- answer was another status or none, by a challenge or otherwise, it is invalid if that uses up the
-- attempts, and tried again if it does not. The ids of the searches are distinct.
pub run_once-AllJudged :
    (o : Outside) (max_attempts batch_size : ℕ) (w : World)
    → ((id : ℕ) → count (has_id id) w.db.search_urls ≤ 1)
    → AllJudged o
        (or_default max_attempts 5)
        w.db.search_urls
        (run_once o max_attempts batch_size w).1.db.search_urls
unfolding run_once pending_validations
run_once-AllJudged o max_attempts batch_size w one = elim (Bool-cases (w.env.db_fails w.step)) [
  | inl e ↦ rw e (AllJudged-self o _ w.db.search_urls)
  | inr e ↦ rw e (
      (check_each-Judges o (or_default max_attempts 5) w.db.search_urls 0
          (select_pending (or_default batch_size 20) (w.env.clock w.step) w.db)
          (pending-Fits (or_default batch_size 20) (w.env.clock w.step) w.db one)).at
        (tick w) (AllJudged-self o _ w.db.search_urls))
]

-- ===== src/Repo/Deliveries.antt =====
-- internal/repo/deliveries.go: what was sent to a user, and the baseline of a new search.
pub mod Once
use property_search.Prelude.{
  ℕ, Text, ◌≡◌, Bool, true, false, not, ◌&&◌, ◌+◌, List, [], ◌∷◌, ◌++◌, Option, none, some, ◌==◌,
  if◌then◌else◌, any, find?, update,
}
use property_search.Model.{Float, Snapshot}
use property_search.Store.{
  DeliveryStatus, baseline, ListingRow, DeliveryRow, Db, Action, Result, ok, err, foreign_key, pure,
  exec_result, transaction, now, ◌>>=◌,
}
use property_search.Repo.Users.{has_user}
use property_search.Repo.Listings.{is_delivery, delivered, has_listing}

-- NULLIF(x, 0)
abbrev null_if_zero : ℕ → Option ℕ
null_if_zero n = if n == 0 then none else some n

abbrev is_null : Option ℕ → Bool
is_null none = true
is_null (some _) = false

-- The columns that a send writes.
pub record Sending : Type 0 where
  pub message_id : ℕ
  pub position : ℕ
  pub score : Option Float
  pub status : DeliveryStatus
  pub features : Snapshot

abbrev pub new_delivery : ℕ → ℕ → ℕ → Sending → DeliveryRow
new_delivery user item at s = record {
  user_id = user;
  listing_id = item;
  message_id = null_if_zero s.message_id;
  position = some s.position;
  score = s.score;
  model_version = 0;
  features = s.features;
  status = s.status;
  attempts = 1;
  sent_at = some at;
}

-- ON CONFLICT … DO UPDATE … WHERE deliveries.message_id IS NULL
abbrev pub resend : ℕ → Sending → DeliveryRow → DeliveryRow
resend at s r =
    if is_null r.message_id
    then record r {
      message_id = null_if_zero s.message_id;
      position = some s.position;
      score = s.score;
      features = s.features;
      status = s.status;
      attempts = r.attempts + 1;
      sent_at = some at;
    }
    else r

unfoldable pub upsert_delivery : ℕ → ℕ → ℕ → Sending → Db → Result (Unit {0}) × Db
upsert_delivery user item at s d =
    if delivered user item d
    then (
      ok tt,
      record d { deliveries = update (is_delivery user item) (resend at s) d.deliveries },
    )
    else if has_user user d && has_listing item d
    then (ok tt, record d { deliveries = d.deliveries ++ new_delivery user item at s ∷ [] })
    else (err foreign_key, d)

-- `Repo.MarkDelivered`
unfoldable pub mark_delivered : ℕ → ℕ → Sending → Action (Unit {0})
unfolding upsert_delivery
mark_delivered user item s = do at ← now; exec_result (upsert_delivery user item at s)

abbrev pub baseline_row : ℕ → ListingRow → DeliveryRow
baseline_row user l = record {
  user_id = user;
  listing_id = l.id;
  message_id = none;
  position = none;
  score = none;
  model_version = 0;
  features = l.features;
  status = baseline;
  attempts = 0;
  sent_at = none;
}

-- INSERT … SELECT … FROM listings WHERE id = $2 ON CONFLICT DO NOTHING, with the rows affected.
unfoldable pub insert_baseline : ℕ → ℕ → Db → Result ℕ × Db
insert_baseline user item d = elim (find? (λ (r : ListingRow). r.id == item) d.listings) [
  | none ↦ (ok 0, d)
  | some l ↦
      if delivered user item d
      then (ok 0, d)
      else if has_user user d
      then (ok 1, record d { deliveries = d.deliveries ++ baseline_row user l ∷ [] })
      else (err foreign_key, d)
]

-- The loop of `BaselineDeliveries`.
unfoldable pub baseline_each : ℕ → List ℕ → Action ℕ
unfolding insert_baseline
baseline_each user [] = pure 0
baseline_each user (item ∷ items) = do
  n ← exec_result (insert_baseline user item)
  rest ← baseline_each user items
  pure (n + rest)

-- `Repo.BaselineDeliveries`
unfoldable pub baseline_deliveries : ℕ → List ℕ → Action ℕ
unfolding baseline_each
baseline_deliveries user [] = pure 0
baseline_deliveries user (item ∷ items) = transaction (baseline_each user (item ∷ items))

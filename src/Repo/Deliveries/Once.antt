-- ===== src/Repo/Deliveries/Once.antt =====
-- `MarkDelivered` and the candidates of the user.
use property_search.Prelude.{
  ℕ, ◌≡◌, ◌≢◌, sym, refl, true, false, arith, any, update, List, [], ◌∷◌, All, any-snoc, ==_refl,
}
use property_search.Store.{DeliveryRow, Db, ok}
use property_search.Repo.Listings.{Candidate, select_candidates, delivered, is_delivery, subscribed}
use property_search.Repo.Listings.Candidates.{select_candidates-fresh}
use property_search.Repo.Deliveries.{Sending, new_delivery, resend, upsert_delivery}

pub any-update :
    (user item : ℕ) (f : DeliveryRow → DeliveryRow) (xs : List DeliveryRow)
    → ((r : DeliveryRow) → is_delivery user item (f r) ≡ is_delivery user item r)
    → any (is_delivery user item) (update (is_delivery user item) f xs)
      ≡ any (is_delivery user item) xs
any-update user item f [] same = refl
any-update user item f (x ∷ xs) same = ground (arith, same x, any-update user item f xs same)

pub upsert_delivery-delivered :
    (user item at : ℕ) (s : Sending) (d : Db) (a : Unit {0})
    → (upsert_delivery user item at s d).0 ≡ ok a
    → delivered user item (upsert_delivery user item at s d).1 ≡ true
unfolding upsert_delivery
upsert_delivery-delivered user item at s d a h = ground (
  arith,
  any-update user item (resend at s) d.deliveries (λ r. ground arith),
  any-snoc (is_delivery user item) d.deliveries (new_delivery user item at s),
  ==_refl user,
  ==_refl item,
)

All-other :
    (user item : ℕ) (d : Db) (cs : List Candidate)
    → delivered user item d ≡ true
    → All
        (λ (c : Candidate).
          (subscribed user c.listing_id d ≡ true) × (delivered user c.listing_id d ≡ false))
        cs
    → All (λ (c : Candidate). c.listing_id ≢ item) cs
All-other user item d [] h k = tt
All-other user item d (c ∷ cs) h k =
    ((λ e. clash e (rw (sym e) k.0.1)), All-other user item d cs h k.1)
  where
    clash : c.listing_id ≡ item → delivered user item d ≡ false → ⊥
    clash e free = ground arith

-- What was sent to a user, and recorded without an error, is no candidate of the user afterwards,
-- under any limit.
pub upsert_delivery-never_again :
    (user item at limit : ℕ) (s : Sending) (d : Db)
    → (upsert_delivery user item at s d).0 ≡ ok tt
    → All
        (λ (c : Candidate). c.listing_id ≢ item)
        (select_candidates user limit (upsert_delivery user item at s d).1)
upsert_delivery-never_again user item at limit s d h =
    All-other user item (upsert_delivery user item at s d).1 _
      (upsert_delivery-delivered user item at s d tt h)
      (select_candidates-fresh user limit (upsert_delivery user item at s d).1).0

-- ===== src/Repo/Contacts/Cache.antt =====
-- The cache of contacts.
use property_search.Prelude.{
  ℕ, ◌+◌, ◌≤◌, ◌<◌, Text, ◌≡◌, refl, true, false, arith, List, [], ◌∷◌, ◌++◌, none, some, find?,
  any, update, ==_refl,
}
use property_search.Model.{Contact}
use property_search.Store.{ContactRow, Db, ok}
use property_search.Repo.Listings.{null_if_empty}
use property_search.Repo.Contacts.{
  contact_ttl, is_contact, or_empty, contact_row, select_contact, upsert_contact,
}

or_empty-null_if_empty : (t : Text) → or_empty (null_if_empty t) ≡ t
or_empty-null_if_empty [] = refl
or_empty-null_if_empty (c ∷ t) = refl

find?-update_row :
    (item at : ℕ) (c : Contact) (xs : List ContactRow)
    → any (is_contact item) xs ≡ true
    → find? (is_contact item) (update (is_contact item) (λ r. contact_row item at c) xs)
      ≡ some (contact_row item at c)
find?-update_row item at c [] h = cc
find?-update_row item at c (x ∷ xs) h = ground (arith, ==_refl item, find?-update_row item at c xs)

find?-snoc_row :
    (item at : ℕ) (c : Contact) (xs : List ContactRow)
    → any (is_contact item) xs ≡ false
    → find? (is_contact item) (xs ++ contact_row item at c ∷ []) ≡ some (contact_row item at c)
find?-snoc_row item at c [] h = ground (arith, ==_refl item)
find?-snoc_row item at c (x ∷ xs) h = ground (arith, find?-snoc_row item at c xs)

-- A contact that was saved is read back field by field for thirty days, an empty one too, and is
-- missing afterwards, so that it is fetched again.
pub upsert_contact-select_contact :
    (item at soon late : ℕ) (c : Contact) (d : Db)
    → (upsert_contact item at c d).0 ≡ ok tt
    → soon ≤ at + contact_ttl
    → at + contact_ttl < late
    → (select_contact item soon (upsert_contact item at c d).1 ≡ some c)
      × (select_contact item late (upsert_contact item at c d).1 ≡ none)
unfolding upsert_contact select_contact
upsert_contact-select_contact item at soon late c d h fresh stale =
    let saved = found in (ground arith, ground arith)
  where
    found :
        find? (is_contact item) (upsert_contact item at c d).1.listing_contacts
        ≡ some (contact_row item at c)
    found = ground (
      arith,
      find?-update_row item at c d.listing_contacts,
      find?-snoc_row item at c d.listing_contacts,
    )

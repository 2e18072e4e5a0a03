-- ===== src/Contact.antt =====
-- internal/contact: the phone of a liked listing. encoding/json and goquery give the blocks of the
-- page: for each script, what it decodes to.
use property_search.Prelude.{
  ℕ, Text, Bool, true, false, ◌&&◌, ◌||◌, ◌==◌, ◌++◌, List, [], ◌∷◌, Option, none, some, ltb,
  if◌then◌else◌, codes, text_eq, trim_space, trim_prefix, is_empty, is_digit, length, join,
}
use property_search.Model.{Contact}
use property_search.Store.{
  Action, Result, ok, err, text_sent, fetch_failed, tick, pure, attempt, call_api, now, ◌>>=◌, ◌>>◌,
}
use property_search.Repo.Contacts.{get_contact, save_contact, listing_for_contact}

-- The decoded fields of a block; the address if it decodes.
pub record Block : Type 0 where
  pub type_name : Text
  pub telephone : Text
  pub email : Text
  pub email_matches : Bool
  pub address : Option (Text × Text)

-- The runes of `normalizePhone` that are kept, from position `i`.
unfoldable pub phone_chars : Bool → Text → Text
phone_chars first [] = []
phone_chars first (c ∷ s) =
    let rest = phone_chars false s in if is_digit c || (c == b'+' && first) then c ∷ rest else rest

-- `normalizePhone`
unfoldable pub normalize_phone : Text → Text
unfolding phone_chars
normalize_phone raw =
    let out = phone_chars true (trim_space raw) in
    if ltb (length (trim_prefix out (codes "+"))) 8 then [] else out

abbrev is_residence : Text → Bool
is_residence t =
    text_eq t (codes "Apartment")
    || (text_eq t (codes "House") || text_eq t (codes "SingleFamilyResidence"))

abbrev street : Option (Text × Text) → Text
street none = []
street (some (s, region)) = trim_space s

abbrev region : Option (Text × Text) → Text
region none = []
region (some (s, r)) = trim_space r

unfoldable pub block_contact : Block → Contact
unfolding normalize_phone
block_contact b = record {
  phone = normalize_phone b.telephone;
  email = if b.email_matches then b.email else [];
  street_address = street b.address;
  neighbourhood = region b.address;
}

-- `FromJSONLD`: the first block of a residence; `none` in the list is a script that does not decode.
unfoldable pub from_json_ld : List (Option Block) → Option Contact
unfolding block_contact
from_json_ld [] = none
from_json_ld (none ∷ bs) = from_json_ld bs
from_json_ld (some b ∷ bs) =
    let rest = from_json_ld bs in if is_residence b.type_name then some (block_contact b) else rest

abbrev no_contact : Contact
no_contact = record { phone = []; email = []; street_address = []; neighbourhood = [] }

-- `details` answers the fetch of a detail page at a step: its blocks, or `none` for a failure.
module _ (details : ℕ → Text → Option (List (Option Block))) where
  abbrev fetch_details : Text → Action (List (Option Block))
  fetch_details url w = elim (details w.step url) [
    | none ↦ (err fetch_failed, tick w)
    | some bs ↦ (ok bs, tick w)
  ]

  abbrev cache : ℕ → Option Contact → Action Contact
  cache item none = do attempt (save_contact item no_contact); pure no_contact
  cache item (some c) = do save_contact item c; pure c

  -- `fetchContact`
  unfoldable pub fetch_contact : ℕ → Action Contact
  fetch_contact item = do
    url ← listing_for_contact item
    blocks ← fetch_details url
    cache item (from_json_ld blocks)

  abbrev phone_text : Contact → Text
  phone_text c = join (10 ∷ []) (
      (codes "📞 Teléfono del aviso: " ++ c.phone)
      ∷ ((if is_empty c.street_address then [] else (codes "Dirección: " ++ c.street_address) ∷ [])
          ++ codes "Mencioná que lo viste en Zonaprop." ∷ []))

  -- The message, if there is a phone to send.
  unfoldable pub send_phone : ℕ → Contact → Action (Unit {0})
  send_phone chat c = if is_empty c.phone then pure tt else call_api (text_sent chat (phone_text c))

  abbrev or_fetch : ℕ → Option Contact → Action (Result Contact)
  or_fetch item none = attempt (fetch_contact item)
  or_fetch item (some c) = pure (ok c)

  abbrev or_nothing : ℕ → Result Contact → Action (Unit {0})
  or_nothing chat (err e) = pure tt
  or_nothing chat (ok c) = send_phone chat c

  -- `OnLike`: a failed fetch is logged, and is no error.
  unfoldable pub on_like : ℕ → ℕ → Action (Unit {0})
  unfolding fetch_contact send_phone
  on_like chat item = do
    at ← now
    cached ← get_contact item at
    found ← or_fetch item cached
    or_nothing chat found

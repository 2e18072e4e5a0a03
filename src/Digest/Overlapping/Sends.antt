-- ===== src/Digest/Overlapping/Sends.antt =====
-- The steps of overlapping cycles that send a card or record it.
use mathlib.Core.Path.{subst}
use property_search.Prelude.{
  ℕ, ◌+◌, ◌≤◌, ◌≡◌, refl, Bool, true, ◌&&◌, arith, List, [], ◌∷◌, ◌++◌, count, count-snoc, ◌==◌,
  ==_iff, ==_refl, Bool-cases, inl, inr,
}
use property_search.Store.{listing_sent, ok}
use property_search.Repo.Deliveries.{upsert_delivery}
use property_search.Repo.Deliveries.Once.{upsert_delivery-delivered}
use property_search.Digest.Runner.{Ranked, card, sending}
use property_search.Digest.Runner.Once.{is_ranked, upsert_delivery-Grows}
use property_search.Digest.Runner.Room.{room-le}
use property_search.Digest.Overlapping.{Call, looping, recording, holds, System, set}
use property_search.Digest.Overlapping.Budget.{
  is_card_to, left, left-unheld, due-set, set-all, sent_to, mine, Inv, goes_on-IsAlone,
}

module _ (calls : ℕ → Call) (user chat item base : ℕ) where
  -- The state after `Notify` has gone through.
  abbrev pub after_send : System → ℕ → ℕ → ℕ → Ranked → List Ranked → System
  after_send s i k n r rs = record s {
    log = s.log ++ listing_sent (calls i).chat (card (k + 1) n r) ∷ [];
    phase = set s.phase i (recording k n r rs);
  }

  -- Whether it was the listing, to the chat.
  abbrev hits : ℕ → Ranked → Bool
  hits i r = (calls i).chat == chat && r.listing_id == item

  module _
      (private : (j : ℕ)
        → ((calls j).chat == chat) ≡ true
        → mine calls user chat item base j ≡ true) where
    sends-owed :
        (s : System) (i k n : ℕ) (r : Ranked) (rs : List Ranked)
        → s.phase i ≡ looping k n (r ∷ rs)
        → Inv calls user chat item base s
        → (j : ℕ) → mine calls user chat item base j ≡ true
        → count (is_ranked item) (left (set s.phase i (recording k n r rs) j))
            + sent_to calls user chat item base (after_send s i k n r rs)
          ≤ base + s.lost
    sends-owed s i k n r rs at inv j mj =
        let added =
          count-snoc (is_card_to chat item) s.log
            (listing_sent (calls i).chat (card (k + 1) n r)) in
        elim (Bool-cases (j == i)) [
          | inl e ↦ rw e (
              let o' =
                inv.owed i
                  (subst (λ x. mine calls user chat item base x ≡ true) ((==_iff j i).0 e) mj) in
              ground (arith, o', at, added))
          | inr ne ↦ rw ne (elim (Bool-cases (hits i r)) [
            | inl hit ↦ elim (Bool-cases (holds (s.phase j))) [
              | inl held ↦ ground (arith, at, private i, inv.alone j i, ==_iff j i)
              | inr unheld ↦
                  rw (left-unheld item (s.phase j) unheld)
                    (ground (arith, at, private i, inv.owed i, added))
            ]
            | inr other ↦ ground (arith, inv.owed j, added)
          ])
        ]

    pub sends-Inv :
        (s : System) (i k n : ℕ) (r : Ranked) (rs : List Ranked)
        → s.phase i ≡ looping k n (r ∷ rs)
        → Inv calls user chat item base s
        → Inv calls user chat item base (after_send s i k n r rs)
    sends-Inv s i k n r rs at inv =
        let added =
          count-snoc (is_card_to chat item) s.log
            (listing_sent (calls i).chat (card (k + 1) n r)) in
        let p = recording k n r rs in
        record {
          keyed = inv.keyed;
          alone = goes_on-IsAlone calls user chat item base s.phase i p inv.alone (λ h. rw at refl);
          owed = sends-owed s i k n r rs at inv;
          budget = elim (Bool-cases (hits i r)) [
            | inl hit ↦ inr (i, private i (ground arith), rw ==_refl (ground arith))
            | inr other ↦ elim inv.budget [
              | inl b ↦ inl (ground (arith, added))
              | inr (j, mj, dj) ↦ inr (j, mj, due-set item s.phase i j p (rw at refl) dj)
            ]
          ];
          spent = elim (Bool-cases (hits i r)) [
            | inl hit ↦ ground (arith, at, private i, inv.owed i, added)
            | inr other ↦ ground (arith, inv.spent, added)
          ];
        }

    pub marks-Inv :
        (s : System) (i k n at : ℕ) (r : Ranked) (rs : List Ranked)
        → s.phase i ≡ recording k n r rs
        → (upsert_delivery (calls i).user r.listing_id at (sending (k + 1) r) s.db).0 ≡ ok tt
        → Inv calls user chat item base s
        → Inv calls user chat item base (record s {
          db = (upsert_delivery (calls i).user r.listing_id at (sending (k + 1) r) s.db).1;
          phase = set s.phase i (looping (k + 1) n rs);
        })
    marks-Inv s i k n at r rs busy done inv =
        let d = (upsert_delivery (calls i).user r.listing_id at (sending (k + 1) r) s.db).1 in
        let g =
          upsert_delivery-Grows user item (calls i).user r.listing_id at (sending (k + 1) r) s.db in
        let p = looping (k + 1) n rs in
        record {
          keyed = g.1 inv.keyed;
          alone =
              goes_on-IsAlone calls user chat item base s.phase i p inv.alone (λ h. rw busy refl);
          owed =
              set-all
                (λ j q.
                  mine calls user chat item base j ≡ true
                  → count (is_ranked item) (left q) + sent_to calls user chat item base s
                    ≤ base + s.lost)
                s.phase i p inv.owed (λ m. ground (arith, busy, inv.owed i m));
          budget = elim inv.budget [
            | inl b ↦ inl (ground (arith, room-le user item s.db d g))
            | inr (j, mj, dj) ↦ elim (Bool-cases (j == i)) [
              | inl e ↦ inl (
                  ground (
                    arith,
                    inv.spent,
                    busy,
                    ==_iff j i,
                    ==_iff (calls j).user user,
                    upsert_delivery-delivered (calls i).user r.listing_id at (sending (k + 1) r)
                        s.db tt,
                  ))
              | inr ne ↦ inr (j, mj, rw ne dj)
            ]
          ];
          spent = inv.spent;
        }

-- ===== src/Digest/Overlapping/Budget.antt =====
-- What overlapping cycles may still send of a listing: the invariant, and steps that neither send nor
-- write.
use mathlib.Core.Path.{subst}
use property_search.Prelude.{
  ℕ, ◌+◌, ◌≤◌, ◌≡◌, refl, sym, Bool, true, false, ◌&&◌, arith, List, [], count, ◌==◌, ==_iff,
  Bool-cases, inl, inr, ◌⊎◌,
}
use property_search.Store.{Event, listing_sent}
use property_search.Digest.Runner.{Ranked}
use property_search.Digest.Runner.Indexing.{IsKeyed}
use property_search.Digest.Runner.Once.{is_ranked}
use property_search.Digest.Runner.Room.{room}
use property_search.Digest.Overlapping.{
  Call, Phase, waiting, indexing, over, looping, recording, holds, records, System, set, to_phase,
}

abbrev pub is_card_to : ℕ → ℕ → Event → Bool
is_card_to chat item (listing_sent c d) = c == chat && d.listing_id == item
is_card_to chat item _ = false

-- What a call is still to send.
abbrev pub left : Phase → List Ranked
left (looping k n rs) = rs
left (recording k n r rs) = rs
left _ = []

-- Whether a call is recording a listing.
abbrev pub is_due : ℕ → Phase → Bool
is_due item (recording k n r rs) = r.listing_id == item
is_due item _ = false

pub holds-due : (item : ℕ) (p : Phase) → is_due item p ≡ true → holds p ≡ true
holds-due item (recording k n r rs) h = refl
holds-due item waiting h = h
holds-due item indexing h = refl
holds-due item over h = h
holds-due item (looping k n rs) h = refl

pub left-unheld : (item : ℕ) (p : Phase) → holds p ≡ false → count (is_ranked item) (left p) ≡ 0
left-unheld item (recording k n r rs) h = ground arith
left-unheld item waiting h = refl
left-unheld item indexing h = refl
left-unheld item over h = refl
left-unheld item (looping k n rs) h = ground arith

pub due-records : (item : ℕ) (p : Phase) → records p ≡ false → is_due item p ≡ false
due-records item (recording k n r rs) h = ground arith
due-records item waiting h = refl
due-records item indexing h = refl
due-records item over h = refl
due-records item (looping k n rs) h = refl

-- Who is recording the listing still is after a step of another call.
pub due-set :
    (item : ℕ) (f : ℕ → Phase) (i k : ℕ) (p : Phase)
    → is_due item (f i) ≡ false
    → is_due item (f k) ≡ true
    → is_due item (set f i p k) ≡ true
due-set item f i k p idle busy = ground (arith, ==_iff k i)

-- A property of every phase, after one of them has changed.
pub set-all :
    (P : ℕ → Phase → Type 0) (f : ℕ → Phase) (i : ℕ) (p : Phase)
    → ((j : ℕ) → P j (f j))
    → P i p
    → (j : ℕ) → P j (set f i p j)
set-all P f i p all new j = elim (Bool-cases (j == i)) [
  | inl e ↦ rw e (subst (λ k. P k p) (sym ((==_iff j i).0 e)) new)
  | inr e ↦ rw e (all j)
]

module _ (calls : ℕ → Call) (user chat item base : ℕ) where
  abbrev pub sent_to : System → ℕ
  sent_to s = count (is_card_to chat item) s.log

  -- `mine i` is whether a call is one for the user.
  abbrev pub mine : ℕ → Bool
  mine i = (calls i).user == user

  abbrev pub IsAlone : (ℕ → Phase) → Type 0
  IsAlone phase =
      (i j : ℕ)
      → mine i ≡ true
      → mine j ≡ true
      → holds (phase i) ≡ true
      → holds (phase j) ≡ true
      → i ≡ j

  pub record Inv (s : System) : Type 0 where
    pub keyed : IsKeyed s.db
    -- One call at most has the lock of the user.
    pub alone : IsAlone s.phase
    -- What a call is to send is within the budget.
    pub owed :
        (i : ℕ)
        → mine i ≡ true
        → count (is_ranked item) (left (s.phase i)) + sent_to s ≤ base + s.lost
    -- Either there is room in the budget for what the database leaves, or the listing is being recorded.
    pub budget :
        (sent_to s + room user item s.db ≤ base + s.lost)
        ⊎ ((i : ℕ) × (mine i ≡ true) × (is_due item (s.phase i) ≡ true))
    pub spent : sent_to s ≤ base + s.lost

  holds-set :
      (f : ℕ → Phase) (i : ℕ) (p : Phase)
      → (holds p ≡ true → holds (f i) ≡ true)
      → (j : ℕ) → holds (set f i p j) ≡ true
      → holds (f j) ≡ true
  holds-set f i p on j h = ground (arith, on, ==_iff j i)

  -- A call that goes on has its lock already.
  pub goes_on-IsAlone :
      (f : ℕ → Phase) (i : ℕ) (p : Phase)
      → IsAlone f
      → (holds p ≡ true → holds (f i) ≡ true)
      → IsAlone (set f i p)
  goes_on-IsAlone f i p one on j k mj mk hj hk =
      one j k mj mk (holds-set f i p on j hj) (holds-set f i p on k hk)

  pub locks-IsAlone :
      (s : System) (i : ℕ)
      → ((j : ℕ) → holds (s.phase j) ≡ true → ((calls j).user == (calls i).user) ≡ false)
      → Inv s
      → IsAlone (set s.phase i indexing)
  locks-IsAlone s i free inv j k mj mk hj hk = elim (Bool-cases (j == i)) [
    | inl ej ↦ elim (Bool-cases (k == i)) [
      | inl ek ↦ ground (arith, ==_iff j i, ==_iff k i)
      | inr nk ↦
          (let e' : mine i ≡ true = subst (λ x. mine x ≡ true) ((==_iff j i).0 ej) mj in
            ground (arith, free k, ==_iff (calls i).user user, ==_iff (calls k).user user))
    ]
    | inr nj ↦ elim (Bool-cases (k == i)) [
      | inl ek ↦
          (let e' : mine i ≡ true = subst (λ x. mine x ≡ true) ((==_iff k i).0 ek) mk in
            ground (arith, free j, ==_iff (calls i).user user, ==_iff (calls j).user user))
      | inr nk ↦ ground (arith, inv.alone j k)
    ]
  ]

  -- A step of one call that neither sends nor writes.
  pub to_phase-Inv :
      (s : System) (i : ℕ) (p : Phase)
      → Inv s
      → IsAlone (set s.phase i p)
      → (mine i ≡ true → count (is_ranked item) (left p) + sent_to s ≤ base + s.lost)
      → is_due item (s.phase i) ≡ false
      → Inv (to_phase s i p)
  to_phase-Inv s i p inv one due idle = record {
    keyed = inv.keyed;
    alone = one;
    owed =
        set-all (λ j q. mine j ≡ true → count (is_ranked item) (left q) + sent_to s ≤ base + s.lost)
          s.phase i p inv.owed due;
    budget = elim inv.budget [
      | inl b ↦ inl b
      | inr (k, mk, dk) ↦ inr (k, mk, due-set item s.phase i k p idle dk)
    ];
    spent = inv.spent;
  }

-- ===== src/Repo/Searches/Concurrent.antt =====
-- `AddSearchURLChecked` in several requests at once, at the grain of its statements: each statement
-- sees what is committed, and the row lock of FOR UPDATE is held until the transaction ends.
pub mod Facts
pub mod Limited
use property_search.Prelude.{
  ℕ, Text, ◌≡◌, Bool, true, false, ◌==◌, if◌then◌else◌, filter, any, count,
}
use property_search.Store.{SearchRow, Db, World}
use property_search.Repo.Users.{has_user}
use property_search.Repo.Searches.{owned, same_url, insert_checked}

-- The arguments of a call, its URL normalised.
pub record Request : Type 0 where
  pub user : ℕ
  pub label : Text
  pub raw_url : Text
  pub norm : Text

-- How far a call is: what it has read so far.
pub data Phase : Type 0 where
  waiting locked ended : Phase
  counted : ℕ → Phase
  looked : ℕ → Bool → Phase

-- The row of the user is locked.
abbrev pub holds : Phase → Bool
holds waiting = false
holds ended = false
holds _ = true

pub record System : Type 0 where
  pub db : Db
  pub phase : ℕ → Phase

abbrev pub set : (ℕ → Phase) → ℕ → Phase → ℕ → Phase
set f i p j = if j == i then p else f j

abbrev pub to_phase : System → ℕ → Phase → System
to_phase s i p = record s { phase = set s.phase i p }

-- One statement of one call, or a deletion of searches by another.
pub data Step (calls : ℕ → Request) (s : System) : System → Type 0 where
  -- SELECT … FOR UPDATE: the user exists, and no other call has the row.
  locks :
      (i : ℕ)
      → s.phase i ≡ waiting
      → has_user (calls i).user s.db ≡ true
      → ((j : ℕ) → holds (s.phase j) ≡ true → ((calls j).user == (calls i).user) ≡ false)
      → Step calls s (to_phase s i locked)
  counts :
      (i : ℕ)
      → s.phase i ≡ locked
      → Step calls s (to_phase s i (counted (count (owned (calls i).user) s.db.search_urls)))
  looks :
      (i n : ℕ)
      → s.phase i ≡ counted n
      → Step calls s
          (to_phase s i (looked n (any (same_url (calls i).user (calls i).norm) s.db.search_urls)))
  -- The check of the limit, the insert and the commit, in a world where the insert may fail.
  inserts :
      (i n : ℕ) (existing : Bool) (w : World)
      → s.phase i ≡ looked n existing
      → w.db ≡ s.db
      → Step calls s (record {
        db =
            (insert_checked
              (calls i).user
              (calls i).label
              (calls i).raw_url
              (calls i).norm
              n
              existing
              w).1.db;
        phase = set s.phase i ended;
      })
  -- A statement fails, and the transaction is rolled back; for a user without a row, of whom there is
  -- nothing to lock, the insert does. Users are neither created nor deleted meanwhile.
  aborts : (i : ℕ) → Step calls s (to_phase s i ended)
  -- DELETE FROM search_urls WHERE …
  deletes :
      (keep : SearchRow → Bool)
      → Step calls s (record s { db = record s.db { search_urls = filter keep s.db.search_urls } })

pub data Reach (calls : ℕ → Request) (s : System) : System → Type 0 where
  here : Reach calls s s
  next : {t t' : System} → Reach calls s t → Step calls t t' → Reach calls s t'

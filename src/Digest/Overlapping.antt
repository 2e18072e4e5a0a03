-- ===== src/Digest/Overlapping.antt =====
-- `RunForUser` for several users and several times at once, with `lockUser`: the daily run, the runs
-- that users ask for, and the run at the start are goroutines that meet at the lock of their user. A
-- step is a statement of one of them, or of any other part of the program.
pub mod Budget
pub mod Sends
pub mod Once
use property_search.Prelude.{
  ℕ, ◌+◌, ◌≡◌, Bool, true, false, List, [], ◌∷◌, ◌++◌, ◌==◌, if◌then◌else◌,
}
use property_search.Store.{Db, Event, listing_sent, ok}
use property_search.Repo.Listings.{select_candidates}
use property_search.Repo.Deliveries.{upsert_delivery}
use property_search.Score.{Weights}
use property_search.Outside.{Outside}
use property_search.Digest.Runner.{Ranked, rank, card, sending, run_limit}
use property_search.Digest.Runner.Indexing.{Grows}

-- The arguments of a call.
pub record Call : Type 0 where
  pub user : ℕ
  pub chat : ℕ

-- How far a call is: in the loop, the position reached, of how many, and what is left to send.
pub data Phase : Type 0 where
  waiting indexing over : Phase
  looping : ℕ → ℕ → List Ranked → Phase
  recording : ℕ → ℕ → Ranked → List Ranked → Phase

-- The lock of the user is held.
abbrev pub holds : Phase → Bool
holds waiting = false
holds over = false
holds _ = true

-- A card is on its way into the database.
abbrev pub records : Phase → Bool
records (recording i total r rs) = true
records _ = false

-- `lost` counts the sends whose recording failed.
pub record System : Type 0 where
  pub db : Db
  pub log : List Event
  pub lost : ℕ
  pub phase : ℕ → Phase

abbrev pub set : (ℕ → Phase) → ℕ → Phase → ℕ → Phase
set f i p j = if j == i then p else f j

abbrev pub to_phase : System → ℕ → Phase → System
to_phase s i p = record s { phase = set s.phase i p }

pub data Step (o : Outside) (max_per_run : ℕ) (calls : ℕ → Call) (s : System)
    : System → Type 0 where
  -- `lockUser`: no other call has the lock of the user.
  locks :
      (i : ℕ)
      → s.phase i ≡ waiting
      → ((j : ℕ) → holds (s.phase j) ≡ true → ((calls j).user == (calls i).user) ≡ false)
      → Step o max_per_run calls s (to_phase s i indexing)
  -- `Candidates`, `score.Load` and the sort.
  reads :
      (i n : ℕ) (v : Weights)
      → s.phase i ≡ indexing
      → Step o max_per_run calls s (
          to_phase s i (
            looping 0 n (rank o v (select_candidates (calls i).user (run_limit max_per_run) s.db))))
  -- `Notify` fails, and the loop goes on.
  skips :
      (i k n : ℕ) (r : Ranked) (rs : List Ranked)
      → s.phase i ≡ looping k n (r ∷ rs)
      → Step o max_per_run calls s (to_phase s i (looping (k + 1) n rs))
  sends :
      (i k n : ℕ) (r : Ranked) (rs : List Ranked)
      → s.phase i ≡ looping k n (r ∷ rs)
      → Step o max_per_run calls s (record s {
        log = s.log ++ listing_sent (calls i).chat (card (k + 1) n r) ∷ [];
        phase = set s.phase i (recording k n r rs);
      })
  -- `MarkDelivered` goes well.
  marks :
      (i k n at : ℕ) (r : Ranked) (rs : List Ranked)
      → s.phase i ≡ recording k n r rs
      → (upsert_delivery (calls i).user r.listing_id at (sending (k + 1) r) s.db).0 ≡ ok tt
      → Step o max_per_run calls s (record s {
        db = (upsert_delivery (calls i).user r.listing_id at (sending (k + 1) r) s.db).1;
        phase = set s.phase i (looping (k + 1) n rs);
      })
  -- `MarkDelivered` fails, or the process ends first: the call is over.
  loses :
      (i k n : ℕ) (r : Ranked) (rs : List Ranked)
      → s.phase i ≡ recording k n r rs
      → Step o max_per_run calls s (record s { lost = s.lost + 1; phase = set s.phase i over })
  -- Anything else that ends a call, at the end of the loop or before it, and releases the lock.
  ends : (i : ℕ) → records (s.phase i) ≡ false → Step o max_per_run calls s (to_phase s i over)
  -- A statement of the indexing or of another part, which keeps what was delivered and the ids of the
  -- listings distinct. Users are not deleted meanwhile.
  others :
      (d : Db)
      → ((user item : ℕ) → Grows user item s.db d)
      → Step o max_per_run calls s (record s { db = d })

pub data Reach (o : Outside) (max_per_run : ℕ) (calls : ℕ → Call) (s : System)
    : System → Type 0 where
  here : Reach o max_per_run calls s s
  next :
      {t t' : System}
      → Reach o max_per_run calls s t
      → Step o max_per_run calls t t'
      → Reach o max_per_run calls s t'

-- ===== src/Validate/Judged.antt =====
-- The verdicts of the validator on the searches that it checks.
use property_search.Prelude.{
  Text, length, Option, some, false, ℕ, ◌+◌, ◌≤◌, ◌<◌, ◌≡◌, refl, true, List, [], ◌∷◌, update, All,
  arith, ◌==◌, Bool-cases, inl, inr,
}
use property_search.Store.{SearchRow, Validation, Db}
use property_search.Repo.Searches.{SearchUrl, has_id, is_unsettled}
use property_search.Parser.{Card, parse_with_stats}
use property_search.Fetch.{ErrorKind}
use property_search.Outside.{Outside, page, broken}
use property_search.Validate.{Outcome}

-- What the portal answers for a URL at some step, and the outcome that this is: a page with status 200
-- that has listings, or none; another status; or a fetch that failed, by a challenge or otherwise.
pub data Seen (o : Outside) (url : Text) : Outcome → Type 0 where
  listings :
      (n : ℕ) (cards : List Card)
      → o.pages n url ≡ page 200 (some cards)
      → (length (parse_with_stats o.net o.casing o.float_parser cards url).0 == 0) ≡ false
      → Seen o url Outcome.valid
  no_listings :
      (n : ℕ) (cards : List Card)
      → o.pages n url ≡ page 200 (some cards)
      → (length (parse_with_stats o.net o.casing o.float_parser cards url).0 == 0) ≡ true
      → Seen o url Outcome.valid_empty
  refused :
      (n status : ℕ) (cards : Option (List Card))
      → o.pages n url ≡ page status cards
      → (status == 200) ≡ false
      → Seen o url Outcome.retrying
  failed : (n : ℕ) (kind : ErrorKind) → o.pages n url ≡ broken kind → Seen o url Outcome.retrying

-- The verdicts that a pass may write for a search, as it was before the pass, each with the answer of
-- the portal that it stands for.
pub data Verdict (o : Outside) (max_attempts : ℕ) (x : SearchRow) : Validation → Type 0 where
  valid : Seen o x.url Outcome.valid → Verdict o max_attempts x Validation.valid
  valid_empty : Seen o x.url Outcome.valid_empty → Verdict o max_attempts x Validation.valid_empty
  invalid :
      Seen o x.url Outcome.retrying
      → max_attempts ≤ x.attempts + 1
      → Verdict o max_attempts x Validation.invalid
  retrying :
      Seen o x.url Outcome.retrying
      → x.attempts + 1 < max_attempts
      → Verdict o max_attempts x Validation.retrying

-- Whose search it is, its label and its URL.
abbrev pub SameSearch : SearchRow → SearchRow → Type 0
SameSearch x y =
    (y.id ≡ x.id)
    × (y.user_id ≡ x.user_id)
    × (y.label ≡ x.label)
    × (y.url ≡ x.url)
    × (y.url_norm ≡ x.url_norm)

-- A search before a pass and after it: as it was, or one that was to be checked, with a verdict.
pub data Judged (o : Outside) (max_attempts : ℕ) (x y : SearchRow) : Type 0 where
  as_it_was : y ≡ x → Judged o max_attempts x y
  judged :
      is_unsettled x.validation_status ≡ true
      → SameSearch x y
      → Verdict o max_attempts x y.validation_status
      → Judged o max_attempts x y

abbrev pub AllJudged : Outside → ℕ → List SearchRow → List SearchRow → Type 0
AllJudged o max_attempts [] [] = Unit
AllJudged o max_attempts [] (y ∷ ys) = ⊥
AllJudged o max_attempts (x ∷ xs) [] = ⊥
AllJudged o max_attempts (x ∷ xs) (y ∷ ys) =
    Judged o max_attempts x y × AllJudged o max_attempts xs ys

pub AllJudged-self :
    (o : Outside) (max_attempts : ℕ) (xs : List SearchRow) → AllJudged o max_attempts xs xs
AllJudged-self o m [] = tt
AllJudged-self o m (x ∷ xs) = (as_it_was refl, AllJudged-self o m xs)

-- The rows with the id of a search that is checked are to be checked, with its attempts.
abbrev pub Fits : List SearchRow → SearchUrl → Type 0
Fits xs s =
    All
      (λ (x : SearchRow).
        (x.id == s.id) ≡ true
        → (is_unsettled x.validation_status ≡ true) × (x.attempts ≡ s.attempts) × (x.url ≡ s.url))
      xs

module _ (o : Outside) (max_attempts : ℕ) (xs : List SearchRow) where
  abbrev pub IsJudged : Db → Type 0
  IsJudged d = AllJudged o max_attempts xs d.search_urls

  pub Judged-id : (x y : SearchRow) → Judged o max_attempts x y → y.id ≡ x.id
  Judged-id x y (as_it_was e) = rw e refl
  Judged-id x y (judged u s v) = s.0

  Judged-same : (x y : SearchRow) → Judged o max_attempts x y → SameSearch x y
  Judged-same x y (as_it_was e) = rw e (refl, refl, refl, refl, refl)
  Judged-same x y (judged u s v) = s

-- A verdict for the rows with an id.
pub update-AllJudged :
    (o : Outside) (max_attempts : ℕ) (s : SearchUrl) (f : SearchRow → SearchRow)
    → ((r : SearchRow) → SameSearch r (f r))
    → ((x r : SearchRow)
        → x.attempts ≡ s.attempts
        → x.url ≡ s.url
        → Verdict o max_attempts x (f r).validation_status)
    → (xs ys : List SearchRow) → Fits xs s
    → AllJudged o max_attempts xs ys
    → AllJudged o max_attempts xs (update (has_id s.id) f ys)
update-AllJudged o m s f same verdict [] [] fits h = tt
update-AllJudged o m s f same verdict [] (y ∷ ys) fits h = elim h [ ]
update-AllJudged o m s f same verdict (x ∷ xs) [] fits h = elim h [ ]
update-AllJudged o m s f same verdict (x ∷ xs) (y ∷ ys) (fx, fits) (j, h) =
    elim (Bool-cases (has_id s.id y)) [
      | inr e ↦ rw e (j, update-AllJudged o m s f same verdict xs ys fits h)
      | inl e ↦ rw e (
        now_judged (fx (ground (arith, Judged-id o m xs x y j))),
        update-AllJudged o m s f same verdict xs ys fits h,
      )
    ]
  where
    now_judged :
        (is_unsettled x.validation_status ≡ true) × (x.attempts ≡ s.attempts) × (x.url ≡ s.url)
        → Judged o m x (f y)
    now_judged (u, a, l) =
        let before = Judged-same o m xs x y j in judged u (ground (arith, same y)) (verdict x y a l)

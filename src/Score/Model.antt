-- ===== src/Score/Model.antt =====
-- weights.go: the evidence for each bucket, the score of a listing and its reasons.
pub mod Evidence
use property_search.Prelude.{
  ℕ, zero, suc, pos, Text, Bool, true, false, not, ◌&&◌, ◌||◌, ◌+◌, ◌++◌, List, [], ◌∷◌, map,
  Option, none, some, ltb, ◌==◌, if◌then◌else◌, codes, text_eq, itoa, take, find?, any, update,
  sort_stable, filter_map, is_empty,
}
use property_search.Model.{Float}
use property_search.Score.Floats.{FloatOps}
use property_search.Score.Features.{Feature, Features}

-- `Bucket`
pub record Bucket : Type 0 where
  pub ups : ℕ
  pub downs : ℕ

-- One entry of `Buckets[feature][value]`.
pub record Entry : Type 0 where
  pub feature : Text
  pub value : Text
  pub bucket : Bucket

-- `Weights`: the nested map as the list of its entries, one for each feature and value.
pub record Weights : Type 0 where
  pub version : ℕ
  pub buckets : List Entry

-- `NewWeights`
unfoldable pub new_weights : ℕ → Weights
new_weights version = record { version = version; buckets = [] }

abbrev pub is_bucket : Text → Text → Entry → Bool
is_bucket feature value e = text_eq e.feature feature && text_eq e.value value

-- `w.Buckets[name][value]`
unfoldable pub lookup_bucket : Text → Text → List Entry → Option Bucket
lookup_bucket feature value es = elim (find? (is_bucket feature value) es) [
  | none ↦ none
  | some e ↦ some e.bucket
]

-- `w.Buckets[name][value] = b`
unfoldable pub set_bucket : Text → Text → Bucket → List Entry → List Entry
set_bucket feature value b es =
    if any (is_bucket feature value) es
    then update (is_bucket feature value) (λ e. record e { bucket = b }) es
    else es ++ record { feature = feature; value = value; bucket = b } ∷ []

-- A missing bucket reads as the zero value.
abbrev pub or_no_evidence : Option Bucket → Bucket
or_no_evidence none = record { ups = 0; downs = 0 }
or_no_evidence (some b) = b

abbrev pub vote : Bool → Bucket → Bucket
vote true b = record b { ups = b.ups + 1 }
vote false b = record b { downs = b.downs + 1 }

-- The body of the loop of `Weights.Add`.
unfoldable pub add_feature : Bool → Feature → List Entry → List Entry
unfolding lookup_bucket set_bucket
add_feature like x es =
    set_bucket x.name x.value (vote like (or_no_evidence (lookup_bucket x.name x.value es))) es

unfoldable pub add_features : Bool → Features → List Entry → List Entry
unfolding add_feature
add_features like [] es = es
add_features like (x ∷ xs) es = add_features like xs (add_feature like x es)

-- `Weights.Add`
unfoldable pub add : Features → Bool → Weights → Weights
unfolding add_features
add xs like w = record w { buckets = add_features like xs w.buckets }

-- `Reason`
pub record Reason : Type 0 where
  pub feature : Text
  pub value : Text
  pub bucket : Bucket
  pub text : Text

abbrev pub min_reason_support : ℕ
min_reason_support = 3

-- `reasonText`
unfoldable pub reason_text : Text → Text → Bucket → Text
reason_text feature value b =
    if text_eq feature (codes "banios")
    then value
      ++ (codes " baño(s): te gustaron "
          ++ (itoa b.ups ++ (codes " de " ++ itoa (b.ups + b.downs))))
    else value
      ++ (codes ": te gustaron " ++ (itoa b.ups ++ (codes " de " ++ itoa (b.ups + b.downs))))

-- Go's `<` on strings: by bytes, which for UTF-8 is by code points.
unfoldable pub text_lt : Text → Text → Bool
text_lt [] [] = false
text_lt [] (y ∷ ys) = true
text_lt (x ∷ xs) [] = false
text_lt (x ∷ xs) (y ∷ ys) = ltb x y || (x == y && text_lt xs ys)

module _ (f : FloatOps) where
  open f use {decimal, of_int, div, log, lt, eq}

  -- `Bucket.Rate`
  unfoldable pub rate : Bucket → Float
  rate b = div (of_int (pos (b.ups + 1))) (of_int (pos (b.ups + b.downs + 2)))

  -- The loop of `Weights.Score`: the sum and how many buckets backed it.
  unfoldable pub score_from : List Entry → Float → ℕ → Features → Float × ℕ
  unfolding rate
  score_from es sum used [] = (sum, used)
  score_from es sum used (x ∷ xs) = elim (lookup_bucket x.name x.value es) [
    | none ↦ score_from es sum used xs
    | some b ↦ score_from es (f.add sum (log (div (rate b) (decimal 5 1)))) (used + 1) xs
  ]

  abbrev mean : Float × ℕ → Float × ℕ
  mean (sum, used) = if used == 0 then (decimal 0 0, 0) else (div sum (of_int (pos used)), used)

  -- `Weights.Score`
  unfoldable pub score : Weights → Features → Float × ℕ
  unfolding score_from
  score w xs = elim w.buckets [
    | [] ↦ (decimal 0 0, 0)
    | _ ∷ _ ↦ mean (score_from w.buckets (decimal 0 0) 0 xs)
  ]

  -- `candidate` of `Reasons`
  pub record Supported : Type 0 where
    pub feature : Text
    pub value : Text
    pub bucket : Bucket
    pub weight : Float

  abbrev supported : List Entry → Feature → Option Supported
  supported es x = elim (lookup_bucket x.name x.value es) [
    | none ↦ none
    | some b ↦
        if ltb (b.ups + b.downs) min_reason_support
        then none
        else some (record {
          feature = x.name;
          value = x.value;
          bucket = b;
          weight = f.abs (f.sub (rate b) (decimal 5 1));
        })
  ]

  -- Strongest first, ties by name and value.
  abbrev stronger : Supported → Supported → Bool
  stronger a b =
      if not (eq a.weight b.weight)
      then lt b.weight a.weight
      else if not (text_eq a.feature b.feature)
      then text_lt a.feature b.feature
      else text_lt a.value b.value

  abbrev reason : Supported → Reason
  reason c = record {
    feature = c.feature;
    value = c.value;
    bucket = c.bucket;
    text = reason_text c.feature c.value c.bucket;
  }

  -- `Weights.Reasons`
  unfoldable pub reasons : Weights → Features → ℕ → List Reason
  unfolding reason_text rate
  reasons w xs max =
      map reason (take max (sort_stable stronger (filter_map (supported w.buckets) xs)))

-- ===== src/Score/Retrain/Reloaded.antt =====
-- internal/score/retrain.go: the rows that a training stores, and what `Load` makes of them.
use mathlib.Core.List.{append-nil}
use property_search.Prelude.{
  ℕ, ◌≡◌, refl, sym, ap, ◌∙◌, Text, Bool, false, ◌==◌, List, [], ◌∷◌, ◌++◌, All, any, any-snoc,
  update, append_assoc, arith, Casing, text_eq_iff, Bool-cases, inl, inr,
}
use property_search.Model.{listing}
use property_search.Repo.Weights.{TrainingSample}
use property_search.Score.Floats.{FloatOps}
use property_search.Score.Features.{Features, extract}
use property_search.Score.Model.{
  Bucket, Entry, Weights, new_weights, is_bucket, set_bucket, add_feature, add_features, add,
}
use property_search.Score.Retrain.{rows_of, load_rows, train}

-- No two entries are for one feature and value.
abbrev pub IsDistinct : List Entry → Type 0
IsDistinct [] = Unit
IsDistinct (e ∷ es) = (any (is_bucket e.feature e.value) es ≡ false) × IsDistinct es

-- None of the entries is for a bucket of the others.
abbrev IsFresh : List Entry → List Entry → Type 0
IsFresh old es = All (λ (e : Entry). any (is_bucket e.feature e.value) old ≡ false) es

any-set :
    (f v g u : Text) (b : Bucket) (es : List Entry)
    → any (is_bucket f v) (update (is_bucket g u) (λ e. record e { bucket = b }) es)
      ≡ any (is_bucket f v) es
any-set f v g u b [] = refl
any-set f v g u b (e ∷ es) = ground (arith, any-set f v g u b es)

update-IsDistinct :
    (g u : Text) (b : Bucket) (es : List Entry)
    → IsDistinct es
    → IsDistinct (update (is_bucket g u) (λ e. record e { bucket = b }) es)
update-IsDistinct g u b [] h = tt
update-IsDistinct g u b (e ∷ es) (new, h) = elim (Bool-cases (is_bucket g u e)) [
  | inl hit ↦ rw (hit, any-set e.feature e.value g u b es) (new, update-IsDistinct g u b es h)
  | inr miss ↦ rw (miss, any-set e.feature e.value g u b es) (new, update-IsDistinct g u b es h)
]

snoc-IsDistinct :
    (es : List Entry) (x : Entry)
    → any (is_bucket x.feature x.value) es ≡ false
    → IsDistinct es
    → IsDistinct (es ++ x ∷ [])
snoc-IsDistinct [] x none h = (refl, tt)
snoc-IsDistinct (e ∷ es) x none (new, h) = (
  rw any-snoc (
      ground (
        arith,
        text_eq_iff x.feature e.feature,
        text_eq_iff x.value e.value,
        text_eq_iff e.feature x.feature,
        text_eq_iff e.value x.value,
      )),
  snoc-IsDistinct es x (ground arith) h,
)

set_bucket-IsDistinct :
    (f v : Text) (b : Bucket) (es : List Entry) → IsDistinct es → IsDistinct (set_bucket f v b es)
unfolding set_bucket
set_bucket-IsDistinct f v b es h = elim (Bool-cases (any (is_bucket f v) es)) [
  | inl e ↦ rw e (update-IsDistinct f v b es h)
  | inr e ↦ rw e (snoc-IsDistinct es (record { feature = f; value = v; bucket = b }) e h)
]

add_features-IsDistinct :
    (like : Bool) (xs : Features) (es : List Entry)
    → IsDistinct es
    → IsDistinct (add_features like xs es)
unfolding add_features add_feature
add_features-IsDistinct like [] es h = h
add_features-IsDistinct like (x ∷ xs) es h =
    add_features-IsDistinct like xs (add_feature like x es)
      (set_bucket-IsDistinct x.name x.value _ es h)

IsFresh-snoc :
    (old es : List Entry) (x : Entry)
    → IsFresh old es
    → any (is_bucket x.feature x.value) es ≡ false
    → IsFresh (old ++ x ∷ []) es
IsFresh-snoc old [] x fresh new = tt
IsFresh-snoc old (e ∷ es) x (he, fresh) new = (
  rw any-snoc (
      ground (
        arith,
        text_eq_iff x.feature e.feature,
        text_eq_iff x.value e.value,
        text_eq_iff e.feature x.feature,
        text_eq_iff e.value x.value,
      )),
  IsFresh-snoc old es x fresh (ground arith),
)

-- Rows for other buckets are appended one after another.
load_rows-append :
    (es old : List Entry) → IsDistinct es → IsFresh old es → load_rows (rows_of es) old ≡ old ++ es
unfolding load_rows rows_of set_bucket
load_rows-append [] old h fresh = sym (append-nil old)
load_rows-append (e ∷ es) old (new, h) (he, fresh) =
    let appended : set_bucket e.feature e.value e.bucket old ≡ old ++ e ∷ [] = rw he refl in
    ap (load_rows (rows_of es)) appended
    ∙ load_rows-append es (old ++ e ∷ []) h (IsFresh-snoc old es e fresh new)
    ∙ append_assoc old (e ∷ []) es

IsFresh-nil : (es : List Entry) → IsFresh [] es
IsFresh-nil [] = tt
IsFresh-nil (e ∷ es) = (refl, IsFresh-nil es)

module _ (f : FloatOps) (u : Casing) where
  pub train-IsDistinct :
      (samples : List TrainingSample) (w : Weights)
      → IsDistinct w.buckets
      → IsDistinct (train f u samples w).buckets
  unfolding train add
  train-IsDistinct [] w h = h
  train-IsDistinct (s ∷ samples) w h =
      train-IsDistinct samples _
        (add_features-IsDistinct (s.label == 1) (extract f u (listing s.snapshot)) w.buckets h)

  -- Whatever a model was trained on, the rows that are stored for it are read back as its evidence:
  -- no bucket is lost, merged with another or counted twice.
  pub load_rows-rows_of :
      (samples : List TrainingSample) (version : ℕ)
      → let trained = train f u samples (new_weights version) in
        load_rows (rows_of trained.buckets) [] ≡ trained.buckets
  unfolding new_weights
  load_rows-rows_of samples version =
      let trained = train f u samples (new_weights version) in
      load_rows-append trained.buckets [] (train-IsDistinct samples (new_weights version) tt)
        (IsFresh-nil trained.buckets)

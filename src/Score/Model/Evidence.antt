-- ===== src/Score/Model/Evidence.antt =====
-- What a rating adds to the evidence.
use property_search.Prelude.{
  Text, ◌≡◌, refl, Bool, true, false, ◌&&◌, ◌+◌, ◌++◌, List, [], ◌∷◌, some, arith, if◌then◌else◌,
  text_eq, text_eq_refl, text_eq_iff, any, update, count, Bool-cases, inl, inr,
}
use property_search.Score.Features.{Feature, Features}
use property_search.Score.Model.{
  Bucket, Entry, is_bucket, lookup_bucket, set_bucket, or_no_evidence, vote, add_feature,
  add_features,
}

pub lookup_bucket-set_bucket :
    (f v : Text) (b : Bucket) (es : List Entry) → lookup_bucket f v (set_bucket f v b es) ≡ some b
unfolding lookup_bucket set_bucket
lookup_bucket-set_bucket f v b es = elim (Bool-cases (any (is_bucket f v) es)) [
  | inl e ↦ rw e (old es e)
  | inr e ↦ rw e (new es e)
]
  where
    old :
        (es : List Entry)
        → any (is_bucket f v) es ≡ true
        → lookup_bucket f v (update (is_bucket f v) (λ e. record e { bucket = b }) es) ≡ some b
    old [] h = cc
    old (x ∷ es) h = ground (arith, old es)

    new :
        (es : List Entry)
        → any (is_bucket f v) es ≡ false
        → lookup_bucket f v (es ++ record { feature = f; value = v; bucket = b } ∷ []) ≡ some b
    new [] h = ground (arith, text_eq_refl f, text_eq_refl v)
    new (x ∷ es) h = ground (arith, new es)

pub lookup_bucket-other :
    (f v g u : Text) (b : Bucket) (es : List Entry)
    → text_eq g f && text_eq u v ≡ false
    → lookup_bucket f v (set_bucket g u b es) ≡ lookup_bucket f v es
unfolding lookup_bucket set_bucket
lookup_bucket-other f v g u b es ne = elim (Bool-cases (any (is_bucket g u) es)) [
  | inl e ↦ rw e (old es)
  | inr e ↦ rw e (new es)
]
  where
    old :
        (es : List Entry)
        → lookup_bucket f v (update (is_bucket g u) (λ e. record e { bucket = b }) es)
          ≡ lookup_bucket f v es
    old [] = refl
    old (x ∷ es) = ground (
      arith,
      old es,
      text_eq_iff x.feature g,
      text_eq_iff x.value u,
      text_eq_iff x.feature f,
      text_eq_iff x.value v,
      text_eq_iff g f,
      text_eq_iff u v,
    )

    new :
        (es : List Entry)
        → lookup_bucket f v (es ++ record { feature = g; value = u; bucket = b } ∷ [])
          ≡ lookup_bucket f v es
    new [] = ground arith
    new (x ∷ es) = ground (arith, new es)

abbrev pub evidence : Text → Text → List Entry → Bucket
evidence f v es = or_no_evidence (lookup_bucket f v es)

abbrev pub is_feature : Text → Text → Feature → Bool
is_feature f v x = text_eq x.name f && text_eq x.value v

add_feature-evidence :
    (like : Bool) (f v : Text) (x : Feature) (es : List Entry)
    → evidence f v (add_feature like x es)
      ≡ (if is_feature f v x then vote like (evidence f v es) else evidence f v es)
unfolding add_feature
add_feature-evidence like f v x es = elim (Bool-cases (is_feature f v x)) [
  | inl e ↦ ground (
    arith,
    text_eq_iff x.name f,
    text_eq_iff x.value v,
    lookup_bucket-set_bucket x.name x.value
        (vote like (or_no_evidence (lookup_bucket x.name x.value es))) es,
    lookup_bucket-set_bucket f v (vote like (or_no_evidence (lookup_bucket f v es))) es,
  )
  | inr e ↦
      rw
        (
          e,
          lookup_bucket-other f v x.name x.value
              (vote like (or_no_evidence (lookup_bucket x.name x.value es))) es e,
        )
        refl
]

-- Rating a listing adds one vote, for or against, to the evidence for each of its features, as often as
-- the feature is there, and leaves the evidence for every other feature or value as it was.
pub add_features-evidence :
    (like : Bool) (f v : Text) (xs : Features) (es : List Entry)
    → let after = evidence f v (add_features like xs es) in
      (after.ups ≡ (evidence f v es).ups + (if like then count (is_feature f v) xs else 0))
      × (after.downs ≡ (evidence f v es).downs + (if like then 0 else count (is_feature f v) xs))
unfolding add_features
add_features-evidence like f v [] es = (ground arith, ground arith)
add_features-evidence like f v (x ∷ xs) es = ground (
  arith,
  add_feature-evidence like f v x es,
  add_features-evidence like f v xs (add_feature like x es),
)

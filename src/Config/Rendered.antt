-- ===== src/Config/Rendered.antt =====
-- internal/config/config.go: SEED_URLS written out, and read back by `seedURLs`.
use property_search.Prelude.{
  ℕ, ◌≡◌, ◌≢◌, refl, Text, is_empty, true, false, List, [], ◌∷◌, ◌++◌, map, All, arith, join,
  is_space, trim_space, reverse, reverse-cons, reverse-append, append_assoc,
}
use property_search.Prelude.Separated.{
  Free, starts_clean, IsTrimmed, cut-append, split-join, trim_space-IsTrimmed, starts_clean-append,
  trim_space_non_blank,
}
use property_search.Config.Settings.{loaded, SeedUrl}
use property_search.Config.Seeds.{read_seed, read_seeds, seed_urls_of}

-- One entry, and the entries between commas.
abbrev pub render_seed : SeedUrl → Text
render_seed s = s.label ++ b'|' ∷ s.url

abbrev pub render_seeds : List SeedUrl → Text
render_seeds ss = join (b',' ∷ []) (map render_seed ss)

-- A label and a URL that the format can carry.
pub record IsWritable (s : SeedUrl) : Type 0 where
  pub label_set : s.label ≢ []
  pub url_set : s.url ≢ []
  pub label_trimmed : IsTrimmed s.label
  pub url_trimmed : IsTrimmed s.url
  pub label_free : Free b'|' s.label × Free b',' s.label
  pub url_free : Free b',' s.url

Free-append : (sep : ℕ) (a b : Text) → Free sep a → Free sep b → Free sep (a ++ b)
Free-append sep [] b ha hb = hb
Free-append sep (c ∷ a) b (hc, ha) hb = (hc, Free-append sep a b ha hb)

is_empty-set : (s : Text) → s ≢ [] → is_empty s ≡ false
is_empty-set [] h = ground arith
is_empty-set (c ∷ s) h = refl

render_seed-IsTrimmed : (s : SeedUrl) → IsWritable s → IsTrimmed (render_seed s)
unfolding is_space
render_seed-IsTrimmed s w = (
  starts_clean-append s.label b'|' s.url w.label_trimmed.0 refl,
  rw
      (
        reverse-append s.label (b'|' ∷ s.url),
        reverse-cons b'|' s.url,
        append_assoc (reverse s.url) (b'|' ∷ []) (reverse s.label),
      )
      (starts_clean-append (reverse s.url) b'|' (reverse s.label) w.url_trimmed.1 refl),
)

read_seed-render_seed : (s : SeedUrl) → IsWritable s → read_seed (render_seed s) ≡ loaded s
unfolding read_seed
read_seed-render_seed s w =
    rw
      (
        cut-append b'|' s.label s.url w.label_free.0,
        trim_space-IsTrimmed s.label w.label_trimmed,
        trim_space-IsTrimmed s.url w.url_trimmed,
        is_empty-set s.label w.label_set,
        is_empty-set s.url w.url_set,
      )
      refl

is_empty-append : (a : Text) (c : ℕ) (b : Text) → is_empty (a ++ c ∷ b) ≡ false
is_empty-append [] c b = refl
is_empty-append (x ∷ a) c b = refl

render_seed-set : (s : SeedUrl) → is_empty (render_seed s) ≡ false
render_seed-set s = is_empty-append s.label b'|' s.url

read_seeds-render_seed :
    (ss : List SeedUrl) → All IsWritable ss → read_seeds (map render_seed ss) ≡ loaded ss
unfolding read_seeds
read_seeds-render_seed [] h = refl
read_seeds-render_seed (s ∷ ss) (w, ws) =
    rw
      (
        trim_space-IsTrimmed (render_seed s) (render_seed-IsTrimmed s w),
        render_seed-set s,
        read_seed-render_seed s w,
        read_seeds-render_seed ss ws,
      )
      refl

-- A text that begins with a label, which begins with something other than space.
begins_clean :
    (label : Text) (c : ℕ) (rest : Text)
    → label ≢ []
    → starts_clean label ≡ true
    → is_empty (trim_space (label ++ c ∷ rest)) ≡ false
unfolding is_space
begins_clean [] c rest ne h = elim (ne refl) [ ]
begins_clean (x ∷ label) c rest ne h = trim_space_non_blank x (label ++ c ∷ rest) (ground arith)

render_seeds_non_blank :
    (s : SeedUrl) (ss : List SeedUrl)
    → IsWritable s
    → is_empty (trim_space (render_seeds (s ∷ ss))) ≡ false
unfolding join
render_seeds_non_blank s [] w = begins_clean s.label b'|' s.url w.label_set w.label_trimmed.0
render_seeds_non_blank s (t ∷ ss) w =
    rw (append_assoc s.label (b'|' ∷ s.url) (b',' ∷ render_seeds (t ∷ ss))) (
      begins_clean s.label b'|' (s.url ++ b',' ∷ render_seeds (t ∷ ss)) w.label_set
        w.label_trimmed.0)

render_seed-Free : (ss : List SeedUrl) → All IsWritable ss → All (Free b',') (map render_seed ss)
render_seed-Free [] h = tt
render_seed-Free (s ∷ ss) (w, ws) = (
  Free-append b',' s.label (b'|' ∷ s.url) w.label_free.1 (refl, w.url_free),
  render_seed-Free ss ws,
)

-- The searches of SEED_URLS are read as they were written: labels without commas and bars, URLs
-- without commas, neither of them empty nor with space at an end.
pub seed_urls_of-render_seeds :
    (ss : List SeedUrl) → All IsWritable ss → seed_urls_of (render_seeds ss) ≡ loaded ss
unfolding seed_urls_of join trim_space
seed_urls_of-render_seeds [] h = refl
seed_urls_of-render_seeds (s ∷ ss) (w, ws) =
    rw
      (
        render_seeds_non_blank s ss w,
        split-join b',' (render_seed s) (map render_seed ss) (render_seed-Free (s ∷ ss) (w, ws)),
      )
      (read_seeds-render_seed (s ∷ ss) (w, ws))

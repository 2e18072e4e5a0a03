-- ===== src/Score/Summary.antt =====
-- `SummaryText` and `BucketSummary`: what /model shows.
use property_search.Prelude.{
  ℕ, Text, Bool, not, ◌+◌, ◌++◌, [], map, ltb, ◌==◌, if◌then◌else◌, codes, text_eq, itoa, take,
  sort_stable, join,
}
use property_search.Model.{Float}
use property_search.Score.Floats.{FloatOps}
use property_search.Score.Model.{Entry, Weights, text_lt}
use property_search.Score.Retrain.{min_samples_for_concordance}

module _ (f : FloatOps) where
  abbrev head_text : ℕ → Text
  head_text version =
      if ltb 0 version
      then codes "🤖 Modelo (versión " ++ (itoa version ++ codes ")")
      else codes "🤖 Modelo"

  abbrev base_text : ℕ → ℕ → ℕ → Text
  base_text version likes dislikes =
      head_text version
      ++ (codes "\nCalificaciones: "
          ++ (itoa likes ++ (codes " 👍 · " ++ (itoa dislikes ++ codes " 👎\n"))))

  -- `SummaryText`
  unfoldable pub summary_text : ℕ → ℕ → ℕ → Float → ℕ → Bool → Text
  summary_text version likes dislikes agreement samples has_agreement =
      if likes + dislikes == 0
      then codes
          "🤖 Modelo\n\nTodavía no tengo calificaciones tuyas.\nCalificá con 👍/👎 y empiezo a aprender."
      else if not has_agreement
      then base_text version likes dislikes
        ++ (codes "\nConcordancia: todavía no medible ("
            ++ (itoa samples
                ++ (codes " de "
                    ++ (itoa min_samples_for_concordance
                        ++ codes
                            " calificaciones).\nHasta juntar suficientes no muestro razones, para no inventar señales que no tengo."))))
      else base_text version likes dislikes
        ++ (codes "\nConcordancia con lo que ordené: "
            ++ (f.format_rounded (f.mul agreement (f.decimal 100 0))
                ++ (codes "% en "
                    ++ (itoa samples
                        ++ codes
                            " calificaciones.\nEsto mide si el orden que te mostré coincidió con tus gustos."))))

abbrev more_evidence : Entry → Entry → Bool
more_evidence a b =
    let na = a.bucket.ups + a.bucket.downs in
    let nb = b.bucket.ups + b.bucket.downs in
    if not (na == nb)
    then ltb nb na
    else if not (text_eq a.feature b.feature)
    then text_lt a.feature b.feature
    else text_lt a.value b.value

abbrev bucket_line : Entry → Text
bucket_line e =
    codes "· "
    ++ (e.feature
        ++ (codes "="
            ++ (e.value
                ++ (codes ": "
                    ++ (itoa e.bucket.ups
                        ++ (codes " 👍 / " ++ (itoa e.bucket.downs ++ codes " 👎\n")))))))

-- `BucketSummary`
unfoldable pub bucket_summary : Weights → ℕ → Text
bucket_summary w top = join [] (map bucket_line (take top (sort_stable more_evidence w.buckets)))

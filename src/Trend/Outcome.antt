-- ===== src/Trend/Outcome.antt =====
-- What a trend over stored and summarised documents comes to.
use financial_pdf_reader.Base.{ℕ, zero, suc, ◌<◌}
use financial_pdf_reader.Base.{String, ◌≡◌, refl, ◌∙◌, ◌⊎◌, inl, inr}
use financial_pdf_reader.Base.{Option}
use financial_pdf_reader.Base.{List, [], ◌∷◌, arith}
use financial_pdf_reader.Base.{count_if}
use financial_pdf_reader.Base.{All, nat_eq, string_eq, text_eq}
use financial_pdf_reader.Models.{}
use financial_pdf_reader.Base.Result.{ok, raised}
use financial_pdf_reader.Base.Dict.{Dict}
use financial_pdf_reader.Base.Sort.{sorted, count_if-sorted}
use financial_pdf_reader.Trend.{
  attribute_error, StoredDashboard, TrendDocument, TrendPoint, PeriodData, TrendReport, aggregate,
  append_points, empty_series, generate_trend, period_order, tracked_of, trend_report,
}
use financial_pdf_reader.Trend.Lists.{
  IsReady, has_list, lists_metrics, load-All, generate_trend_raises, extract_kpi_points-cases,
}
use financial_pdf_reader.Trend.Sources.{IsTrend, generate_trend-IsTrend}

aggregate-ok :
    (ps : List PeriodData) (series : Dict String (List TrendPoint))
    → count_if (λ p. has_list p.dashboard.metrics) ps ≡ 0
    → (done : Dict String (List TrendPoint)) × (aggregate ps series ≡ ok done)
unfolding aggregate
aggregate-ok [] series h = (series, refl)
aggregate-ok (p ∷ ps) series h =
    elim (extract_kpi_points-cases p.document_id p.period p.dashboard) [
      | inl (listed, e) ↦ absurd (ground (arith, h, listed))
      | inr (other, (points, e)) ↦
          let (done, same) =
            aggregate-ok ps (append_points points series) (ground (arith, h, other)) in
          (done, rw e same)
    ]

module _ (find_document : String → Option TrendDocument)
    (latest_dashboard : String → Option StoredDashboard) where
  generate_trend-ok :
      (doc : String) (docs : List String) (kpis : Option (List String))
      → All (IsReady find_document latest_dashboard) (doc ∷ docs)
      → count_if (lists_metrics find_document latest_dashboard) (doc ∷ docs) ≡ 0
      → (r : TrendReport) × (generate_trend find_document latest_dashboard (doc ∷ docs) kpis ≡ ok r)
  unfolding generate_trend
  generate_trend-ok doc docs kpis h k =
      let (ps, loaded, _, same_count) = load-All find_document latest_dashboard (doc ∷ docs) h in
      let sorted_ps = sorted period_order ps in
      let (series, done) =
        aggregate-ok sorted_ps (empty_series (tracked_of kpis)) (
          count_if-sorted period_order (λ p. has_list p.dashboard.metrics) ps ∙ (same_count ∙ k)) in
      (trend_report find_document latest_dashboard sorted_ps series, rw (loaded, done) refl)

-- Over documents that are all stored and summarised, at least one of them, a trend raises an
-- AttributeError if one of the latest dashboards has a non-empty list of metrics, and otherwise it
-- returns a report that is a trend in the sense of `IsTrend`.
pub generate_trend-cases :
    (find_document : String → Option TrendDocument)
    (latest_dashboard : String → Option StoredDashboard) (doc : String) (docs : List String)
    (kpis : Option (List String))
    → All (IsReady find_document latest_dashboard) (doc ∷ docs)
    → (0 < count_if (lists_metrics find_document latest_dashboard) (doc ∷ docs))
        × (generate_trend find_document latest_dashboard (doc ∷ docs) kpis ≡ raised attribute_error)
      ⊎ (count_if (lists_metrics find_document latest_dashboard) (doc ∷ docs) ≡ 0)
        × ((r : TrendReport) × (ps : List PeriodData) × (generate_trend find_document
                latest_dashboard
                (doc ∷ docs)
                kpis
              ≡ ok r)
            × IsTrend find_document latest_dashboard (doc ∷ docs) (tracked_of kpis) ps r)
generate_trend-cases find latest doc docs kpis h =
    elim (zero_or_positive (count_if (lists_metrics find latest) (doc ∷ docs))) [
      | inl none_listed ↦
          let (r, e) = generate_trend-ok find latest doc docs kpis h none_listed in
          let (ps, trend) = generate_trend-IsTrend find latest (doc ∷ docs) kpis r e in
          inr (none_listed, (r, ps, e, trend))
      | inr listed ↦ inl (listed, generate_trend_raises find latest (doc ∷ docs) kpis h listed)
    ]
  where
    zero_or_positive : (n : ℕ) → (n ≡ 0) ⊎ (0 < n)
    zero_or_positive zero = inl refl
    zero_or_positive (suc n) = inr (omega arith)

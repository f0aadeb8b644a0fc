-- ===== src/Trend/Sources.antt =====
-- What a trend that succeeds consists of.
use financial_pdf_reader.Base.{suc}
use financial_pdf_reader.Base.{String, ◌≡◌, refl, sym, ap, ◌∙◌, inl, inr}
use financial_pdf_reader.Base.{Bool, not, Option}
use financial_pdf_reader.Base.{List, [], ◌∷◌, map, arith, ltb}
use financial_pdf_reader.Base.{Option-cases, length}
use financial_pdf_reader.Base.{is_empty, count_if}
use financial_pdf_reader.Base.{All, ◌==◌, nat_eq, string_eq, text_eq}
use mathlib.Core.Path.{ap₂}
use financial_pdf_reader.Base.Sort.{
  sorted, count_if-sorted, length-sorted, All-sorted, IsSorted, sorted-IsSorted,
}
use financial_pdf_reader.Base.Strings.{string_le_total, string_le_trans}
use financial_pdf_reader.Base.{subst, true, false}
use financial_pdf_reader.Base.Result.{Result, ok, ◌>>=◌, guard, map_result, >>=-eq-ok}
use financial_pdf_reader.Trend.{
  StoredDashboard, TrendError, no_documents, TrendDocument, PeriodData, TrendReport, tracked_of,
  period_order, aggregate, empty_series, load_period, trend_report, generate_trend,
}
use financial_pdf_reader.Trend.Points.{
  Series, AllContinue, aggregate-AllContinue, IsSeries, kept_series, All-contains_of,
}

length-map :
    {A : Type 0} (xs : List PeriodData) (f : PeriodData → A) → length (map f xs) ≡ length xs
length-map [] f = refl
length-map (x ∷ xs) f = ap suc (length-map xs f)

count_if-map :
    (p : String → Bool) (f : PeriodData → String) (ps : List PeriodData)
    → count_if p (map f ps) ≡ count_if (λ x. p (f x)) ps
count_if-map p f [] = refl
count_if-map p f (x ∷ ps) = ground (arith, count_if-map p f ps)

module _ (find_document : String → Option TrendDocument)
    (latest_dashboard : String → Option StoredDashboard) where
  load_period-document :
      (doc : String) (p : PeriodData)
      → load_period find_document latest_dashboard doc ≡ ok p
      → p.document_id ≡ doc
  unfolding load_period
  load_period-document doc p h = elim (Option-cases (find_document doc)) [
    | inl e ↦ absurd (ground (arith, e))
    | inr (d, e) ↦ elim (Option-cases (latest_dashboard doc)) [
      | inl e' ↦ absurd (ground (arith, e, e'))
      | inr (dashboard, e') ↦ ground (arith, e, e')
    ]
  ]

  load_periods-documents :
      (docs : List String) (ps : List PeriodData)
      → map_result (load_period find_document latest_dashboard) docs ≡ ok ps
      → map (λ p. p.document_id) ps ≡ docs
  load_periods-documents [] ps h = let same : [] ≡ ps = cc in rw (← same) refl
  load_periods-documents (doc ∷ docs) ps h =
      let load = load_period find_document latest_dashboard in
      let (p, loaded, h') =
        >>=-eq-ok (load doc) (λ y. map_result load docs >>= λ ys. ok (y ∷ ys)) ps h in
      let (qs, later, e) = >>=-eq-ok (map_result load docs) (λ ys. ok (p ∷ ys)) ps h' in
      let same : p ∷ qs ≡ ps = cc in
      rw (← same) (
        ap₂ (λ d ds. d ∷ ds) (load_period-document doc p loaded)
          (load_periods-documents docs qs later))

  -- What is loaded is what the store has for its document.
  abbrev pub IsLoaded : PeriodData → Type 0
  IsLoaded p = load_period find_document latest_dashboard p.document_id ≡ ok p

  load_periods-IsLoaded :
      (docs : List String) (ps : List PeriodData)
      → map_result (load_period find_document latest_dashboard) docs ≡ ok ps
      → All IsLoaded ps
  load_periods-IsLoaded [] ps h = let same : [] ≡ ps = cc in subst (All IsLoaded) same tt
  load_periods-IsLoaded (doc ∷ docs) ps h =
      let load = load_period find_document latest_dashboard in
      let (p, loaded, h') =
        >>=-eq-ok (load doc) (λ y. map_result load docs >>= λ ys. ok (y ∷ ys)) ps h in
      let (qs, later, e) = >>=-eq-ok (map_result load docs) (λ ys. ok (p ∷ ys)) ps h' in
      let same : p ∷ qs ≡ ps = cc in
      subst (All IsLoaded) same
        (ap load (load_period-document doc p loaded) ∙ loaded, load_periods-IsLoaded docs qs later)

period_order_total : (p q : PeriodData) → period_order p q ≡ false → period_order q p ≡ true
period_order_total p q = string_le_total p.period q.period

period_order_trans :
    (p q r : PeriodData)
    → period_order p q ≡ true
    → period_order q r ≡ true
    → period_order p r ≡ true
period_order_trans p q r = string_le_trans p.period q.period r.period

-- What a trend that succeeds holds: `ps` are the documents with the periods and the dashboards that
-- the store has for them.
pub record IsTrend (find_document : String → Option TrendDocument)
    (latest_dashboard : String → Option StoredDashboard) (docs kpis : List String)
    (ps : List PeriodData) (r : TrendReport) : Type 0 where
  pub loaded : All (IsLoaded find_document latest_dashboard) ps
  pub ordered : IsSorted period_order ps
  pub documents : r.document_ids ≡ map (λ p. p.document_id) ps
  pub periods : r.periods ≡ map (λ p. p.period) ps
  pub same_documents :
      (d : String) → count_if (λ x. x == d) r.document_ids ≡ count_if (λ x. x == d) docs
  pub warned : r.r7_warning ≡ ltb (length docs) 3
  pub flagged : is_empty r.governance_flags ≡ not r.r7_warning
  pub series : All (IsSeries ps kpis) r.kpi_trends

trend_report-IsTrend :
    (find_document : String → Option TrendDocument)
    (latest_dashboard : String → Option StoredDashboard) (docs : List String)
    (kpis : Option (List String)) (loaded : List PeriodData) (series : Series)
    → map (λ p. p.document_id) loaded ≡ docs
    → All (IsLoaded find_document latest_dashboard) loaded
    → AllContinue (sorted period_order loaded) (empty_series (tracked_of kpis)) series
    → IsTrend find_document latest_dashboard docs
        (tracked_of kpis)
        (sorted period_order loaded)
        (trend_report find_document latest_dashboard (sorted period_order loaded) series)
unfolding trend_report
trend_report-IsTrend find latest docs kpis loaded series e stored c =
    let ps = sorted period_order loaded in
    let many : length ps ≡ length docs =
      length-sorted period_order loaded
      ∙ (sym (length-map loaded (λ p. p.document_id)) ∙ ap length e) in
    record {
      loaded = All-sorted period_order (IsLoaded find latest) loaded stored;
      ordered = sorted-IsSorted period_order period_order_total period_order_trans loaded;
      documents = refl;
      periods = refl;
      same_documents = λ d.
          count_if-map (λ x. x == d) (λ p. p.document_id) ps
          ∙ (count_if-sorted period_order (λ p. p.document_id == d) loaded
              ∙ (sym (count_if-map (λ x. x == d) (λ p. p.document_id) loaded)
                  ∙ ap (count_if (λ x. x == d)) e));
      warned = ap (λ n. ltb n 3) many;
      flagged = ground arith;
      series =
          kept_series ps (tracked_of kpis) (tracked_of kpis) series
            (All-contains_of (tracked_of kpis) (tracked_of kpis) (λ k m. m)) c;
    }

-- If a trend succeeds, it is over the given documents, as often as they are given; R7 warns exactly
-- if there are fewer than three of them; and every series is one that was asked for, is not empty,
-- and takes at most one point from each period, with the document's identifier. The documents stand
-- in the order of their periods, and period and dashboard are those that the store has.
pub generate_trend-IsTrend :
    (find_document : String → Option TrendDocument)
    (latest_dashboard : String → Option StoredDashboard) (docs : List String)
    (kpis : Option (List String)) (r : TrendReport)
    → generate_trend find_document latest_dashboard docs kpis ≡ ok r
    → (ps : List PeriodData) × IsTrend find_document latest_dashboard docs (tracked_of kpis) ps r
unfolding generate_trend
generate_trend-IsTrend find latest docs kpis r h =
    let load = load_period find latest in
    let finish : List PeriodData → Result TrendError TrendReport = λ loaded.
      aggregate (sorted period_order loaded) (empty_series (tracked_of kpis)) >>= λ series.
      ok (trend_report find latest (sorted period_order loaded) series) in
    let (_, _, h₁) =
      >>=-eq-ok (guard (not (is_empty docs)) no_documents) (λ _. map_result load docs >>= finish) r
        h in
    let (loaded, e, h₂) = >>=-eq-ok (map_result load docs) finish r h₁ in
    let ps = sorted period_order loaded in
    let (series, aggregated, h₃) =
      >>=-eq-ok (aggregate ps (empty_series (tracked_of kpis)))
        (λ series. ok (trend_report find latest ps series)) r h₂ in
    let same : trend_report find latest ps series ≡ r = cc in
    (
      ps,
      rw (← same) (
          trend_report-IsTrend find latest docs kpis loaded series
            (load_periods-documents find latest docs loaded e)
            (load_periods-IsLoaded find latest docs loaded e)
            (aggregate-AllContinue ps (empty_series (tracked_of kpis)) series aggregated)),
    )

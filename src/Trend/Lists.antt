-- ===== src/Trend/Lists.antt =====
-- A trend over stored dashboards whose `metrics` are a list, as the summaries store them.
use financial_pdf_reader.Base.{ℕ, suc, ◌<◌}
use financial_pdf_reader.Base.{String, ◌≡◌, refl, ap, ◌⊎◌, inl, inr}
use financial_pdf_reader.Base.{Bool, true, false, not, ◌&&◌, Option, none, some}
use financial_pdf_reader.Base.{List, [], ◌∷◌, map, arith, if◌then◌else◌}
use financial_pdf_reader.Base.{Option-cases, is_some, or_default, length}
use financial_pdf_reader.Base.{is_empty, any, count_if}
use financial_pdf_reader.Base.{All, ◌==◌, nat_eq, string_eq, text_eq}
use financial_pdf_reader.Models.{AiClaim}
use financial_pdf_reader.Base.Dict
use financial_pdf_reader.Base.Dict.{Dict}
use financial_pdf_reader.Base.Sort.{sorted, count_if-sorted}
use financial_pdf_reader.Base.Result.{ok, raised, map_result}
use financial_pdf_reader.Trend.{
  TrendDict, StoredMetrics, absent, as_list, as_dict, StoredDashboard, TrendPoint, attribute_error,
  Points, changed_points, metric_points, metric_items, extract_kpi_points, TrendDocument,
  PeriodData, tracked_of, period_order, append_points, aggregate, empty_series, load_period,
  generate_trend,
}
use financial_pdf_reader.Summary.Metrics.{match_metric, direction_name}
use financial_pdf_reader.Summary.Entries.{MetricEntry, ChangeEntry, Dashboard, Metrics}
use financial_pdf_reader.Summary.Dashboard.{
  add_metric, collect_metrics, metric_entry, build_dashboard_payload,
}

-- `metrics` is a list that is not empty.
abbrev pub has_list : StoredMetrics → Bool
has_list absent = false
has_list (as_list ms) = not (is_empty ms)
has_list (as_dict ms) = false

metric_items-cases :
    (m : StoredMetrics)
    → ((has_list m ≡ true) × (metric_items m ≡ raised attribute_error))
      ⊎ ((has_list m ≡ false) × ((ms : Dict String TrendDict) × (metric_items m ≡ ok ms)))
metric_items-cases absent = inr (refl, ([], refl))
metric_items-cases (as_list []) = inr (refl, ([], refl))
metric_items-cases (as_list (m ∷ ms)) = inl (refl, refl)
metric_items-cases (as_dict ms) = inr (refl, (ms, refl))

-- Extraction raises exactly where `metrics` is a list that is not empty; elsewhere it gives points.
pub extract_kpi_points-cases :
    (doc period : String) (d : StoredDashboard)
    → ((has_list d.metrics ≡ true) × (extract_kpi_points doc period d ≡ raised attribute_error))
      ⊎ ((has_list d.metrics ≡ false)
          × ((points : Points) × (extract_kpi_points doc period d ≡ ok points)))
unfolding extract_kpi_points
extract_kpi_points-cases doc period d = elim (metric_items-cases d.metrics) [
  | inl (listed, e) ↦ inl (listed, rw e refl)
  | inr (other, (ms, e)) ↦ inr (
    other,
    (
      metric_points doc period ms (changed_points doc period (or_default d.what_changed []) []),
      rw e refl,
    ),
  )
]

aggregate_raises :
    (ps : List PeriodData) (series : Dict String (List TrendPoint))
    → 0 < count_if (λ p. has_list p.dashboard.metrics) ps
    → aggregate ps series ≡ raised attribute_error
unfolding aggregate
aggregate_raises [] series h = absurd (omega arith)
aggregate_raises (p ∷ ps) series h =
    elim (extract_kpi_points-cases p.document_id p.period p.dashboard) [
      | inl (listed, e) ↦ rw e refl
      | inr (other, (points, e)) ↦
          rw e (aggregate_raises ps (append_points points series) (ground arith))
    ]

abbrev pub listed_in : Option StoredDashboard → Bool
listed_in none = false
listed_in (some d) = has_list d.metrics

module _ (find_document : String → Option TrendDocument)
    (latest_dashboard : String → Option StoredDashboard) where
  -- A document that is stored and summarised.
  abbrev pub IsReady : String → Type 0
  IsReady doc = (is_some (find_document doc) ≡ true) × (is_some (latest_dashboard doc) ≡ true)

  -- The latest dashboard of the document has a non-empty list of metrics.
  abbrev pub lists_metrics : String → Bool
  lists_metrics doc = listed_in (latest_dashboard doc)

  period_data_of : String → TrendDocument → StoredDashboard → PeriodData
  period_data_of doc d dashboard = record {
    document_id = doc;
    period = if d.period == "" then "UNKNOWN" else d.period;
    dashboard = dashboard;
  }

  load_period_lem :
      (doc : String) (d : TrendDocument) (dashboard : StoredDashboard)
      → find_document doc ≡ some d
      → latest_dashboard doc ≡ some dashboard
      → load_period find_document latest_dashboard doc ≡ ok (period_data_of doc d dashboard)
  unfolding load_period period_data_of
  load_period_lem doc d dashboard e e' = rw (e, e') refl

  pub load-All :
      (docs : List String)
      → All IsReady docs
      → (ps : List PeriodData) × (map_result (load_period find_document latest_dashboard) docs
          ≡ ok ps)
        × (length ps ≡ length docs)
        × (count_if (λ p. has_list p.dashboard.metrics) ps ≡ count_if lists_metrics docs)
  unfolding period_data_of
  load-All [] h = ([], refl, refl, refl)
  load-All (doc ∷ docs) ((found, summarised), h) =
      let (ps, loaded, same_length, same_count) = load-All docs h in
      elim (Option-cases (find_document doc)) [
        | inl e ↦ absurd (ground arith)
        | inr (d, e) ↦ elim (Option-cases (latest_dashboard doc)) [
          | inl e' ↦ absurd (ground arith)
          | inr (dashboard, e') ↦ (
            period_data_of doc d dashboard ∷ ps,
            rw (load_period_lem doc d dashboard e e', loaded) refl,
            ap suc same_length,
            rw e' (ground (arith, same_count)),
          )
        ]
      ]

  -- With every document stored and summarised, a trend raises an AttributeError as soon as one of
  -- the dashboards has a non-empty list of metrics.
  pub generate_trend_raises :
      (docs : List String) (kpis : Option (List String))
      → All IsReady docs
      → 0 < count_if lists_metrics docs
      → generate_trend find_document latest_dashboard docs kpis ≡ raised attribute_error
  unfolding generate_trend
  generate_trend_raises [] kpis h k = absurd (omega arith)
  generate_trend_raises (doc ∷ docs) kpis h k =
      let (ps, loaded, _, same_count) = load-All (doc ∷ docs) h in
      let raises = aggregate_raises (sorted period_order ps) (empty_series (tracked_of kpis)) (
        rw (count_if-sorted period_order (λ p. has_list p.dashboard.metrics) ps)
          (omega (arith, same_count))) in
      rw (loaded, raises) refl

-- A dashboard as the report stores it: both keys hold lists of dicts.
abbrev pub change_dict : ChangeEntry → TrendDict
change_dict w = record {
  metric_id = some w.metric_id;
  direction = some (direction_name w.direction);
  delta_pct = w.delta_pct;
  claim_text = some w.claim_text;
  evidence_claim_ids = some w.evidence_claim_ids;
}

abbrev pub entry_dict : MetricEntry → TrendDict
entry_dict m = record {
  metric_id = some m.metric_id;
  direction = some (direction_name m.direction);
  delta_pct = m.delta_pct;
  claim_text = some m.claim_text;
  evidence_claim_ids = some m.evidence_claim_ids;
}

abbrev pub stored : Dashboard → StoredDashboard
stored d = record {
  what_changed = some (map change_dict d.what_changed);
  metrics = as_list (map entry_dict d.metrics);
}

-- A claim of one of the metrics of the registry.
abbrev pub speaks_of_metric : AiClaim → Bool
speaks_of_metric c = is_some (match_metric c.claim)

insert-ne-nil {ℓ} :
    {V : Type ℓ} (k : String) (v : V) (d : Dict String V) → is_empty (Dict.insert k v d) ≡ false
unfolding Dict.insert
insert-ne-nil k v [] = refl
insert-ne-nil k v ((j, w) ∷ d) = ground arith

add_metric-ne-nil :
    (c : AiClaim) (ms : Metrics)
    → (is_empty ms && not (speaks_of_metric c)) ≡ false
    → is_empty (add_metric c ms) ≡ false
unfolding add_metric Dict.lookup
add_metric-ne-nil c [] h = elim (Option-cases (match_metric c.claim)) [
  | inl e ↦ absurd (ground (arith, e))
  | inr (k, e) ↦ rw (e, add_metric) (insert-ne-nil k (metric_entry k c) [])
]
add_metric-ne-nil c ((j, w) ∷ ms) h = elim (Option-cases (match_metric c.claim)) [
  | inl e ↦ rw (e, add_metric) refl
  | inr (k, e) ↦
      rw (e, add_metric) (ground (arith, insert-ne-nil k (metric_entry k c) ((j, w) ∷ ms)))
]

collect_metrics-ne-nil :
    (cs : List AiClaim) (ms : Metrics)
    → (is_empty ms && not (any speaks_of_metric cs)) ≡ false
    → is_empty (collect_metrics ms cs) ≡ false
unfolding collect_metrics
collect_metrics-ne-nil [] ms h = ground arith
collect_metrics-ne-nil (c ∷ cs) ms h =
    collect_metrics-ne-nil cs (add_metric c ms) (ground (arith, add_metric-ne-nil c ms))

has_list-values :
    (ms : Metrics)
    → is_empty ms ≡ false
    → has_list (as_list (map entry_dict (Dict.values ms))) ≡ true
has_list-values [] h = cc
has_list-values (m ∷ ms) h = refl

-- The latest dashboards of documents whose clean claims are given.
module _ (percent : ℕ → ℕ → ℕ) (clean : String → List AiClaim) (consistent flag : Bool)
    (score weighted : ℕ) where
  abbrev pub summarised : String → Option StoredDashboard
  summarised d =
      some (
        stored (build_dashboard_payload percent (clean d) (clean d) consistent flag score weighted))

  listed_in-summarised :
      (doc : String) → any speaks_of_metric (clean doc) ≡ true → listed_in (summarised doc) ≡ true
  unfolding build_dashboard_payload
  listed_in-summarised doc speaks =
      has_list-values (collect_metrics [] (clean doc))
        (collect_metrics-ne-nil (clean doc) [] (ground (arith, speaks)))

  All-IsReady :
      (find_document : String → Option TrendDocument) (docs : List String)
      → All (λ d. is_some (find_document d) ≡ true) docs
      → All (IsReady find_document summarised) docs
  All-IsReady find_document [] h = tt
  All-IsReady find_document (d ∷ docs) (h, hs) = ((h, refl), All-IsReady find_document docs hs)

-- If every document is stored, the latest dashboards are those that the summary built, and the
-- clean claims of the first document speak of a metric, then no trend is made: the call raises an
-- AttributeError.
pub generate_trend-of_summaries :
    (percent : ℕ → ℕ → ℕ) (clean : String → List AiClaim) (consistent flag : Bool)
    (score weighted : ℕ) (find_document : String → Option TrendDocument) (doc : String)
    (docs : List String) (kpis : Option (List String))
    → All (λ d. is_some (find_document d) ≡ true) (doc ∷ docs)
    → any speaks_of_metric (clean doc) ≡ true
    → generate_trend find_document
        (summarised percent clean consistent flag score weighted)
        (doc ∷ docs)
        kpis
      ≡ raised attribute_error
generate_trend-of_summaries percent clean consistent flag score weighted find doc docs kpis found
      speaks =
    let latest = summarised percent clean consistent flag score weighted in
    let listed = listed_in-summarised percent clean consistent flag score weighted doc speaks in
    generate_trend_raises find latest (doc ∷ docs) kpis
      (All-IsReady percent clean consistent flag score weighted find (doc ∷ docs) found)
      (rw listed (omega arith))

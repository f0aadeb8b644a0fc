-- ===== src/Trend.antt =====
-- services/trend/__init__.py: a trend over the stored dashboards of several documents.
--
-- A stored dashboard is a dict: its `metrics` may be missing, a list or a dict. The documents and
-- the latest report of each are looked up by functions that are arguments. The set of the tracked
-- KPIs is walked in the order of `_TRACKED_KPIS`; no statement depends on that order. The
-- identifier and the time of the report are left out.
pub mod Lists
pub mod Points
pub mod Sources
pub mod Outcome
use financial_pdf_reader.Base.{ℕ, ◌+◌}
use financial_pdf_reader.Base.{String}
use financial_pdf_reader.Base.{Bool, not, ◌||◌, Option, none, some}
use financial_pdf_reader.Base.{List, [], ◌∷◌, ◌++◌, map, ltb, if◌then◌else◌}
use financial_pdf_reader.Base.{is_some, or_default, length}
use financial_pdf_reader.Base.{is_empty, select, opt_list}
use financial_pdf_reader.Base.{◌==◌, nat_eq, string_eq, text_eq, contains}
use financial_pdf_reader.Text.{Text}
use Prim.Native.String.{compare as compare_strings}
use text.Mathlib.Text.{is_le}
use financial_pdf_reader.Base.Dict
use financial_pdf_reader.Base.Dict.{Dict}
use financial_pdf_reader.Base.Decimal.{Decimal}
use financial_pdf_reader.Base.Sort.{sorted}
use financial_pdf_reader.Base.Result.{◌>>◌, ◌>>=◌, Result, ok, raised, guard, found_or, map_result}

-- `_TRACKED_KPIS`
abbrev pub tracked_kpis : List String
tracked_kpis =
    "revenue" ∷ "gross_margin" ∷ "operating_income" ∷ "eps" ∷ "cash" ∷ "net_income" ∷ "debt_ratio"
    ∷ "fx" ∷ []

abbrev pub r7_min_periods : ℕ
r7_min_periods = 3

-- An entry of `what_changed` or of `metrics`.
pub record TrendDict : Type 0 where
  pub metric_id : Option String
  pub direction : Option String
  pub delta_pct : Option Decimal
  pub claim_text : Option Text
  pub evidence_claim_ids : Option (List String)

pub data StoredMetrics : Type 0 where
  absent : StoredMetrics
  as_list : List TrendDict → StoredMetrics
  as_dict : Dict String TrendDict → StoredMetrics

pub record StoredDashboard : Type 0 where
  pub what_changed : Option (List TrendDict)
  pub metrics : StoredMetrics

-- `TrendPoint`
pub record TrendPoint : Type 0 where
  pub period : String
  pub document_id : String
  pub direction : String
  pub delta_pct : Option Decimal
  pub claim_text : Text
  pub source_claim_id : String
  pub governance_flags : List String

pub data TrendError : Type 0 where
  no_documents : TrendError
  document_not_found : String → TrendError
  report_not_found : String → TrendError
  attribute_error : TrendError

-- `s or default`, where the empty string counts as missing.
abbrev pub or_if_empty : Option String → String → String
or_if_empty none d = d
or_if_empty (some s) d = if s == "" then d else s

-- `(ids or [""])[0]`
abbrev pub first_id : Option (List String) → String
first_id none = ""
first_id (some []) = ""
first_id (some (i ∷ is)) = i

unfoldable pub trend_point : String → String → TrendDict → TrendPoint
trend_point doc period m = record {
  period = period;
  document_id = doc;
  direction = or_if_empty m.direction "unknown";
  delta_pct = m.delta_pct;
  claim_text = or_default m.claim_text [];
  source_claim_id = first_id m.evidence_claim_ids;
  governance_flags = [];
}

abbrev pub Points : Type 0
Points = Dict String TrendPoint

-- The loop over `what_changed`.
unfoldable pub changed_points : String → String → List TrendDict → Points → Points
changed_points doc period [] points = points
changed_points doc period (item ∷ items) points =
    let metric = or_default item.metric_id "" in
    changed_points doc period items (
      if contains tracked_kpis metric
      then Dict.insert metric (trend_point doc period item) points
      else points)

-- The loop over `metrics.items()`.
unfoldable pub metric_points : String → String → Dict String TrendDict → Points → Points
metric_points doc period [] points = points
metric_points doc period ((metric, m) ∷ ms) points = metric_points doc period ms (
    if not (contains tracked_kpis metric) || is_some (Dict.lookup metric points)
    then points
    else Dict.insert metric (trend_point doc period m) points)

-- `(dashboard.get("metrics") or {}).items()`: an empty list counts as missing, and a list that is
-- not empty has no `items`.
abbrev pub metric_items : StoredMetrics → Result TrendError (Dict String TrendDict)
metric_items absent = ok []
metric_items (as_list []) = ok []
metric_items (as_list (m ∷ ms)) = raised attribute_error
metric_items (as_dict ms) = ok ms

-- `_extract_kpi_points`
unfoldable pub extract_kpi_points : String → String → StoredDashboard → Result TrendError Points
extract_kpi_points doc period dashboard = do
  items ← metric_items dashboard.metrics
  ok (
      metric_points doc period items
        (changed_points doc period (or_default dashboard.what_changed []) []))

-- What the store knows of a document, as far as a trend reads it.
pub record TrendDocument : Type 0 where
  pub stock_id : String
  pub period : String

-- An entry of `period_data`.
pub record PeriodData : Type 0 where
  pub document_id : String
  pub period : String
  pub dashboard : StoredDashboard

-- `TrendReport`, and what `_serialize` returns of it.
pub record TrendReport : Type 0 where
  pub stock_id : String
  pub document_ids : List String
  pub periods : List String
  pub kpi_trends : Dict String (List TrendPoint)
  pub r7_warning : Bool
  pub governance_flags : List ℕ

-- The KPIs to track; an empty list of KPIs counts as none.
abbrev pub tracked_of : Option (List String) → List String
tracked_of none = tracked_kpis
tracked_of (some []) = tracked_kpis
tracked_of (some (k ∷ ks)) = select (contains (k ∷ ks)) tracked_kpis

abbrev pub period_order : PeriodData → PeriodData → Bool
period_order a b = is_le (compare_strings a.period b.period)

-- `kpi_series[kpi].append(points[kpi])` for each tracked KPI that the points have.
unfoldable pub append_points :
    Points → Dict String (List TrendPoint) → Dict String (List TrendPoint)
append_points points [] = []
append_points points ((kpi, series) ∷ rest) =
    (kpi, series ++ opt_list (Dict.lookup kpi points)) ∷ append_points points rest

-- The loop over `period_data`.
unfoldable pub aggregate :
    List PeriodData
    → Dict String (List TrendPoint)
    → Result TrendError (Dict String (List TrendPoint))
unfolding append_points
aggregate [] series = ok series
aggregate (p ∷ ps) series = do
  points ← extract_kpi_points p.document_id p.period p.dashboard
  aggregate ps (append_points points series)

abbrev pub empty_series : List String → Dict String (List TrendPoint)
empty_series [] = []
empty_series (k ∷ ks) = (k, []) ∷ empty_series ks

module _ (find_document : String → Option TrendDocument)
    (latest_dashboard : String → Option StoredDashboard) where
  -- One round of the first loop.
  unfoldable pub load_period : String → Result TrendError PeriodData
  load_period doc = do
    d ← found_or (find_document doc) (document_not_found doc)
    dashboard ← found_or (latest_dashboard doc) (report_not_found doc)
    ok (record {
      document_id = doc;
      period = if d.period == "" then "UNKNOWN" else d.period;
      dashboard = dashboard;
    })

  -- The stock of the first document in the order of the periods.
  abbrev pub stock_of : List PeriodData → String
  stock_of [] = ""
  stock_of (p ∷ ps) = elim (find_document p.document_id) [ none ↦ "" | some d ↦ d.stock_id ]

  -- Steps 4 to 7: the R7 guard, the KPIs with data, and the report.
  unfoldable pub trend_report : List PeriodData → Dict String (List TrendPoint) → TrendReport
  trend_report period_data series =
      let warning = ltb (length period_data) r7_min_periods in
      record {
        stock_id = stock_of period_data;
        document_ids = map (λ p. p.document_id) period_data;
        periods = map (λ p. p.period) period_data;
        kpi_trends = select (λ (_, points). not (is_empty points)) series;
        r7_warning = warning;
        governance_flags = if warning then length period_data ∷ [] else [];
      }

  unfoldable pub generate_trend : List String → Option (List String) → Result TrendError TrendReport
  generate_trend documents kpis = do
    guard (not (is_empty documents)) no_documents
    loaded ← map_result load_period documents
    let period_data = sorted period_order loaded
    series ← aggregate period_data (empty_series (tracked_of kpis))
    ok (trend_report period_data series)

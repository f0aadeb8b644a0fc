-- ===== src/Tests/Dashboards.antt =====
-- The dashboard, its figures and the trends at concrete inputs.
use financial_pdf_reader.Base.{ℕ, String, ◌≡◌, refl, ◌⊎◌, ◌≤◌, true, false, Option, none, some}
use financial_pdf_reader.Base.{List, [], ◌∷◌, All, arith, string_eq}
use financial_pdf_reader.Base.Decimal.{Decimal}
use financial_pdf_reader.Base.Dict
use financial_pdf_reader.Base.Sort.{sorted}
use financial_pdf_reader.Base.Result.{ok, raised}
use financial_pdf_reader.Text.{codes, lower, is_in, is_space}
use financial_pdf_reader.Models.{
  AiClaim, Confidence, derived_metric, financial_evidence, financial_observation, high,
  key_financials, tier_a, tier_b, Materiality,
}
use financial_pdf_reader.Contract.{validate_dashboard_contract_v1}
use financial_pdf_reader.Summary.Metrics.{
  down, calc_impact, direction_from_text, extract_delta, match_metric,
}
use financial_pdf_reader.Summary.Metrics.{base_rank, up}
use financial_pdf_reader.Summary.Metrics.Laws.{level_rank, calc_impact_mono}
use financial_pdf_reader.Summary.Dashboard.{build_dashboard_payload, collect_metrics, priority_of}
use financial_pdf_reader.Summary.Dashboard.Contract.{payload_dict, validate-build_dashboard_payload}
use financial_pdf_reader.Summary.Dashboard.Priority.{
  MadeFrom, Speaks, collect_metrics-best, shown_priority,
}
use financial_pdf_reader.Trend.{
  PeriodData, StoredDashboard, TrendDict, TrendDocument, TrendReport, as_dict, attribute_error,
  load_period, aggregate, trend_report, metric_points, changed_points, trend_point,
  extract_kpi_points, generate_trend, tracked_of,
}
use financial_pdf_reader.Trend.Lists.{generate_trend-of_summaries, summarised}
use financial_pdf_reader.Base.{◌<◌, count_if}
use financial_pdf_reader.Trend.Lists.{lists_metrics}
use financial_pdf_reader.Trend.Outcome.{generate_trend-cases}
use financial_pdf_reader.Trend.Sources.{IsTrend, generate_trend-IsTrend}

abbrev claim_of : Materiality → String → AiClaim
claim_of materiality text = record {
  claim_id = "c";
  claim = codes text;
  claim_type = financial_observation;
  claim_level = derived_metric;
  materiality = materiality;
  section_key = key_financials;
  recurring = true;
  contaminated = false;
  source_type = financial_evidence;
  forward_looking = false;
  rhetorical_risk_flag = false;
  rhetorical_risk_terms = [];
  attribution_prefix = [];
  evidence = [];
  confidence = high;
  requires_human_review = false;
}

abbrev claims : List AiClaim
claims = claim_of tier_b "營收成長 5%" ∷ claim_of tier_a "營收下降 12%" ∷ []

abbrev percent : ℕ → ℕ → ℕ
percent part whole = part

validate-build_dashboard_payload_example :
    validate_dashboard_contract_v1
      (payload_dict (build_dashboard_payload percent claims claims true false 0 0))
    ≡ []
validate-build_dashboard_payload_example =
    validate-build_dashboard_payload percent claims claims true false 0 0

collect_metrics-best_example :
    ((Dict.lookup "revenue" (collect_metrics [] claims) ≡ none)
      × All (λ c. ¬ (Speaks "revenue" c)) claims)
    ⊎ (MadeFrom "revenue" claims (Dict.lookup "revenue" (collect_metrics [] claims))
        × All
            (λ c.
              Speaks "revenue" c
              → priority_of c.materiality
                ≤ shown_priority (Dict.lookup "revenue" (collect_metrics [] claims)))
            claims)
collect_metrics-best_example = collect_metrics-best "revenue" claims

abbrev five : Decimal
five = record { negative = true; digits = 50; places = 1 }

abbrev twelve : Decimal
twelve = record { negative = true; digits = 12; places = 0 }

calc_impact_mono_example :
    (b : Confidence) × (i : Confidence) × (j : Confidence) × (calc_impact "revenue" none down
      ≡ some b)
    × (calc_impact "revenue" (some five) down ≡ some i)
    × (calc_impact "revenue" (some twelve) down ≡ some j)
    × (level_rank b ≡ base_rank "revenue")
    × (level_rank i ≤ level_rank j)
calc_impact_mono_example = calc_impact_mono "revenue" five twelve down (omega arith)

-- A fall by a word that is on the list for claims without a figure only: with a figure the claim goes
-- up, without one down.
decline_with_figure : direction_from_text (codes "營收衰退 5%") (extract_delta (codes "營收衰退 5%")) ≡ up
unfolding direction_from_text extract_delta lower is_in is_space
decline_with_figure = refl

decline_without_figure : direction_from_text (codes "營收衰退") (extract_delta (codes "營收衰退")) ≡ down
unfolding direction_from_text extract_delta lower is_in is_space
decline_without_figure = refl

abbrev documents : String → Option TrendDocument
documents _ = some (record { stock_id = "2330"; period = "2025Q1" })

generate_trend-of_summaries_example :
    generate_trend documents (summarised percent (λ _. claims) true false 0 0) ("d" ∷ []) none
    ≡ raised attribute_error
unfolding match_metric is_in lower
generate_trend-of_summaries_example =
    generate_trend-of_summaries percent (λ _. claims) true false 0 0 documents "d" [] none
      (refl, tt) refl

abbrev grown : TrendDict
grown = record {
  metric_id = some "revenue";
  direction = some "up";
  delta_pct = some five;
  claim_text = none;
  evidence_claim_ids = some ("c" ∷ []);
}

abbrev dashboard : StoredDashboard
dashboard = record { what_changed = some (grown ∷ []); metrics = as_dict [] }

abbrev dashboards : String → Option StoredDashboard
dashboards _ = some dashboard

abbrev report : TrendReport
report = record {
  stock_id = "2330";
  document_ids = "d" ∷ [];
  periods = "2025Q1" ∷ [];
  kpi_trends =
      (
        "revenue",
        record {
          period = "2025Q1";
          document_id = "d";
          direction = "up";
          delta_pct = some five;
          claim_text = [];
          source_claim_id = "c";
          governance_flags = [];
        }
            ∷ [],
      )
      ∷ [];
  r7_warning = true;
  governance_flags = 1 ∷ [];
}

generate_trend-IsTrend_example :
    (ps : List PeriodData) × IsTrend documents dashboards ("d" ∷ []) (tracked_of none) ps report
unfolding generate_trend load_period aggregate sorted extract_kpi_points trend_report Dict.lookup
    metric_points changed_points Dict.insert trend_point
generate_trend-IsTrend_example =
    generate_trend-IsTrend documents dashboards ("d" ∷ []) none report refl

generate_trend-cases_example :
    (0 < count_if (lists_metrics documents dashboards) ("d" ∷ "e" ∷ []))
      × (generate_trend documents dashboards ("d" ∷ "e" ∷ []) none ≡ raised attribute_error)
    ⊎ (count_if (lists_metrics documents dashboards) ("d" ∷ "e" ∷ []) ≡ 0)
      × ((r : TrendReport) × (ps : List PeriodData) × (generate_trend documents dashboards
              ("d" ∷ "e" ∷ [])
              none
            ≡ ok r)
          × IsTrend documents dashboards ("d" ∷ "e" ∷ []) (tracked_of none) ps r)
generate_trend-cases_example =
    generate_trend-cases documents dashboards "d" ("e" ∷ []) none ((refl, refl), ((refl, refl), tt))

-- ===== src/Summary/Entries.antt =====
-- The entries of the dashboard that `_build_dashboard_payload` of services/summarization builds.
use financial_pdf_reader.Base.Dict.{Dict}
use financial_pdf_reader.Base.Decimal.{Decimal}
use financial_pdf_reader.Contract.{SeverityReason}
use financial_pdf_reader.Summary.Metrics.{Direction}
use financial_pdf_reader.Base.{ℕ}
use financial_pdf_reader.Base.{String}
use financial_pdf_reader.Base.{Bool, Option}
use financial_pdf_reader.Base.{List}
use financial_pdf_reader.Base.{nat_eq, string_eq, text_eq}
use financial_pdf_reader.Text.{Text}
use financial_pdf_reader.Models.{Confidence}

-- An entry of the dict `metrics`.
pub record MetricEntry : Type 0 where
  pub metric_id : String
  pub metric_type : String
  pub label : Text
  pub direction : Direction
  pub delta_pct : Option Decimal
  pub evidence_claim_ids : List String
  pub priority : ℕ
  pub claim_text : Text
  pub confidence : Confidence

-- An entry of `what_changed`.
pub record ChangeEntry : Type 0 where
  pub metric_id : String
  pub metric_type : String
  pub label : Text
  pub direction : Direction
  pub delta_pct : Option Decimal
  pub evidence_claim_ids : List String
  pub impact : Option Confidence
  pub claim_text : Text
  pub confidence : Confidence

pub record CausalEdge : Type 0 where
  pub source_metric : String
  pub target_metric : String
  pub relation : String
  pub confidence : Confidence
  pub evidence_claim_ids : List String

pub record Adjustment : Type 0 where
  pub claim_id : String
  pub claim : Text
  pub metric_id : Option String
  pub evidence_claim_ids : List String
  pub requires_human_review : Bool
  pub comparability : Confidence

pub record Risk : Type 0 where
  pub risk_id : String
  pub label : String
  pub severity : Confidence
  pub severity_reason : SeverityReason
  pub trend : Direction
  pub evidence_claim_ids : List String
  pub rule_id : String

pub record Transparency : Type 0 where
  pub evidence_coverage_pct : ℕ
  pub temporal_consistent : Bool
  pub non_recurring_count : ℕ
  pub contaminated_count : ℕ
  pub narrative_density_score : ℕ
  pub narrative_density_weighted_score : ℕ
  pub narrative_flag : Bool
  pub human_review_count : ℕ

pub record Dashboard : Type 0 where
  pub contract_version : String
  pub metrics : List MetricEntry
  pub what_changed : List ChangeEntry
  pub causal_edges : List CausalEdge
  pub adjustments : List Adjustment
  pub risk_surface : List Risk
  pub transparency : Transparency

abbrev pub Metrics : Type 0
Metrics = Dict String MetricEntry

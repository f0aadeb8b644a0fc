-- ===== src/Contract.antt =====
-- services/dashboard_contract/: the constants and the validator of the dashboard payload.
--
-- A payload is a dict, so every key of an entry may be missing. An error is the prefix of the
-- message and the value that the f-string puts behind it.
use financial_pdf_reader.Base.{String}
use financial_pdf_reader.Base.{Bool, false, not, Option, none, some}
use financial_pdf_reader.Base.{List, [], ◌∷◌, ◌++◌, if◌then◌else◌}
use financial_pdf_reader.Base.{is_some, or_default}
use financial_pdf_reader.Base.{is_empty}
use financial_pdf_reader.Base.{◌==◌, nat_eq, string_eq, text_eq, contains}
use financial_pdf_reader.Base.{concat_map}
use financial_pdf_reader.Base.Decimal.{Decimal}
use financial_pdf_reader.Base.Dict.{Dict}

-- `DASHBOARD_CONTRACT_VERSION`
abbrev pub contract_version : String
contract_version = "dashboard_contract_v1"

-- `METRIC_TYPE`
abbrev pub metric_types : Dict String String
metric_types =
    ("revenue", "growth")
    ∷ ("gross_margin", "profitability")
    ∷ ("operating_income", "profitability")
    ∷ ("eps", "profitability")
    ∷ ("cash", "liquidity")
    ∷ ("debt", "liquidity")
    ∷ ("fx", "risk_exposure")
    ∷ ("customer_concentration", "risk_exposure")
    ∷ []

abbrev pub relation_enum : List String
relation_enum =
    "derived_from" ∷ "compared_with" ∷ "inverse_driver" ∷ "positive_driver" ∷ "contextual_factor"
    ∷ []

abbrev pub severity_enum : List String
severity_enum = "low" ∷ "medium" ∷ "high" ∷ "critical" ∷ "unknown" ∷ []

abbrev pub trend_enum : List String
trend_enum = "up" ∷ "down" ∷ "flat" ∷ []

-- The keys of an entry of `metrics` that the validator reads.
pub record MetricDict : Type 0 where
  pub metric_id : Option String
  pub metric_type : Option String
  pub direction : Option String
  pub evidence_claim_ids : Option (List String)

-- The keys of an entry of `causal_edges`.
pub record EdgeDict : Type 0 where
  pub source_metric : Option String
  pub target_metric : Option String
  pub relation : Option String
  pub evidence_claim_ids : Option (List String)

-- The texts that the summary puts under `severity_reason`; the drop of the margin is kept as a
-- number, where `none` is the 0.0 of a missing one.
pub data SeverityReason : Type 0 where
  reason : String → SeverityReason
  gross_margin_drop_pp : Option Decimal → SeverityReason

-- The keys of an entry of `risk_surface`.
pub record RiskDict : Type 0 where
  pub risk_id : Option String
  pub severity : Option String
  pub trend : Option String
  pub severity_reason : Option SeverityReason

pub record PayloadDict : Type 0 where
  pub contract_version : Option String
  pub metrics : Option (List MetricDict)
  pub causal_edges : Option (List EdgeDict)
  pub risk_surface : Option (List RiskDict)

pub data ContractError : Type 0 where
  contract_version_mismatch : ContractError
  metric_missing_metric_id : ContractError
  metric_missing_metric_type : ContractError
  metric_invalid_direction : Option String → ContractError
  metric_missing_evidence : Option String → ContractError
  edge_invalid_relation : Option String → Option String → ContractError
  edge_missing_evidence : Option String → Option String → ContractError
  risk_invalid_severity : Option String → ContractError
  risk_invalid_trend : Option String → ContractError
  risk_missing_reason : Option String → ContractError

-- `x in values`, where `x` may be `None`.
abbrev pub one_of : List String → Option String → Bool
one_of values none = false
one_of values (some s) = contains values s

-- `bool(ids)` of an optional list.
abbrev pub has_items : Option (List String) → Bool
has_items none = false
has_items (some ids) = not (is_empty ids)

-- `if failed: errors.append(e)`
abbrev pub error_if : Bool → ContractError → List ContractError
error_if failed e = if failed then e ∷ [] else []

unfoldable pub metric_errors : MetricDict → List ContractError
metric_errors m =
    error_if (not (is_some m.metric_id)) metric_missing_metric_id
    ++ (error_if (not (is_some m.metric_type)) metric_missing_metric_type
        ++ (error_if (not (one_of trend_enum m.direction)) (metric_invalid_direction m.metric_id)
            ++ error_if (not (has_items m.evidence_claim_ids))
                (metric_missing_evidence m.metric_id)))

unfoldable pub edge_errors : EdgeDict → List ContractError
edge_errors e =
    error_if (not (one_of relation_enum e.relation))
      (edge_invalid_relation e.source_metric e.target_metric)
    ++ error_if (not (has_items e.evidence_claim_ids))
        (edge_missing_evidence e.source_metric e.target_metric)

unfoldable pub risk_errors : RiskDict → List ContractError
risk_errors r =
    error_if (not (one_of severity_enum r.severity)) (risk_invalid_severity r.risk_id)
    ++ (error_if (not (one_of trend_enum r.trend)) (risk_invalid_trend r.risk_id)
        ++ error_if (not (is_some r.severity_reason)) (risk_missing_reason r.risk_id))

abbrev pub version_errors : Option String → List ContractError
version_errors none = contract_version_mismatch ∷ []
version_errors (some v) = error_if (not (v == contract_version)) contract_version_mismatch

unfoldable pub validate_dashboard_contract_v1 : PayloadDict → List ContractError
unfolding metric_errors edge_errors risk_errors
validate_dashboard_contract_v1 payload =
    version_errors payload.contract_version
    ++ (concat_map metric_errors (or_default payload.metrics [])
        ++ (concat_map edge_errors (or_default payload.causal_edges [])
            ++ concat_map risk_errors (or_default payload.risk_surface [])))

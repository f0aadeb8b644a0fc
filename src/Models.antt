-- ===== src/Models.antt =====
-- models/reports/__init__.py: the records of a report, with the `choices` of their fields as data.
pub mod Parse
pub mod Diffs
use financial_pdf_reader.Base.{String, Bool, true, false, Option, List}
use financial_pdf_reader.Text.{Text}

-- `AIClaim.claim_type`
pub data ClaimType : Type 0 where
  financial_observation management_tone risk_factor accounting_note numeric_cross_check : ClaimType

-- `AIClaim.claim_level`
pub data ClaimLevel : Type 0 where
  observed_fact derived_metric interpretation hypothesis insufficient_evidence : ClaimLevel

-- `AIClaim.materiality`
pub data Materiality : Type 0 where
  tier_a tier_b tier_c : Materiality

-- `AIClaim.section_key`
pub data SectionKey : Type 0 where
  key_financials accounting_adjustments liquidity risk_register pipeline evidence_gaps : SectionKey

-- `AIClaim.source_type`
pub data SourceType : Type 0 where
  financial_evidence operational_evidence strategic_narrative management_expectation : SourceType

-- `AIClaim.confidence`
pub data Confidence : Type 0 where
  high medium low : Confidence

-- `ClaimEvidence`
pub record ClaimEvidence : Type 0 where
  pub document_id : String
  pub page : Text
  pub section : Text
  pub quoted_text : Text

-- `AIClaim`
pub record AiClaim : Type 0 where
  pub claim_id : String
  pub claim : Text
  pub claim_type : ClaimType
  pub claim_level : ClaimLevel
  pub materiality : Materiality
  pub section_key : SectionKey
  pub recurring : Bool
  pub contaminated : Bool
  pub source_type : SourceType
  pub forward_looking : Bool
  pub rhetorical_risk_flag : Bool
  pub rhetorical_risk_terms : List Text
  pub attribution_prefix : Text
  pub evidence : List ClaimEvidence
  pub confidence : Confidence
  pub requires_human_review : Bool

abbrev pub is_observed_fact : ClaimLevel → Bool
is_observed_fact observed_fact = true
is_observed_fact _ = false

abbrev pub is_derived_metric : ClaimLevel → Bool
is_derived_metric derived_metric = true
is_derived_metric _ = false

abbrev pub is_insufficient : ClaimLevel → Bool
is_insufficient insufficient_evidence = true
is_insufficient _ = false

-- `claim_level in ("derived_metric", "interpretation", "hypothesis")`
abbrev pub is_inferred : ClaimLevel → Bool
is_inferred derived_metric = true
is_inferred interpretation = true
is_inferred hypothesis = true
is_inferred _ = false

-- `source_type in ("strategic_narrative", "management_expectation")`
abbrev pub is_narrative : SourceType → Bool
is_narrative strategic_narrative = true
is_narrative management_expectation = true
is_narrative _ = false

abbrev pub is_expectation : SourceType → Bool
is_expectation management_expectation = true
is_expectation _ = false

abbrev pub is_high : Confidence → Bool
is_high high = true
is_high _ = false

abbrev pub is_liquidity : SectionKey → Bool
is_liquidity liquidity = true
is_liquidity _ = false

abbrev pub is_adjustments : SectionKey → Bool
is_adjustments accounting_adjustments = true
is_adjustments _ = false

abbrev pub is_key_financials : SectionKey → Bool
is_key_financials key_financials = true
is_key_financials _ = false

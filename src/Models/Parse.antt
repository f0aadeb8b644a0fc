-- ===== src/Models/Parse.antt =====
-- The sets of valid values of `services/summarization`: a string of the model's answer is read as
-- the choice that it names, and as `none` if it is in no set.
use financial_pdf_reader.Base.{String, Option, none, some, if◌then◌else◌, ◌==◌, string_eq}
use financial_pdf_reader.Models.{
  ClaimType, financial_observation, management_tone, risk_factor, accounting_note,
  numeric_cross_check, ClaimLevel, observed_fact, derived_metric, interpretation, hypothesis,
  insufficient_evidence, Materiality, tier_a, tier_b, tier_c, SectionKey, key_financials,
  accounting_adjustments, liquidity, risk_register, pipeline, evidence_gaps, SourceType,
  financial_evidence, operational_evidence, strategic_narrative, management_expectation, Confidence,
  high, medium, low,
}

unfoldable pub valid_claim_type : String → Option ClaimType
valid_claim_type s =
    if s == "financial_observation"
    then some financial_observation
    else if s == "management_tone"
    then some management_tone
    else if s == "risk_factor"
    then some risk_factor
    else if s == "accounting_note"
    then some accounting_note
    else if s == "numeric_cross_check"
    then some numeric_cross_check
    else none

unfoldable pub valid_claim_level : String → Option ClaimLevel
valid_claim_level s =
    if s == "observed_fact"
    then some observed_fact
    else if s == "derived_metric"
    then some derived_metric
    else if s == "interpretation"
    then some interpretation
    else if s == "hypothesis"
    then some hypothesis
    else if s == "insufficient_evidence"
    then some insufficient_evidence
    else none

unfoldable pub valid_materiality : String → Option Materiality
valid_materiality s =
    if s == "tier_a"
    then some tier_a
    else if s == "tier_b"
    then some tier_b
    else if s == "tier_c"
    then some tier_c
    else none

unfoldable pub valid_section_key : String → Option SectionKey
valid_section_key s =
    if s == "key_financials"
    then some key_financials
    else if s == "accounting_adjustments"
    then some accounting_adjustments
    else if s == "liquidity"
    then some liquidity
    else if s == "risk_register"
    then some risk_register
    else if s == "pipeline"
    then some pipeline
    else if s == "evidence_gaps"
    then some evidence_gaps
    else none

unfoldable pub valid_source_type : String → Option SourceType
valid_source_type s =
    if s == "financial_evidence"
    then some financial_evidence
    else if s == "operational_evidence"
    then some operational_evidence
    else if s == "strategic_narrative"
    then some strategic_narrative
    else if s == "management_expectation"
    then some management_expectation
    else none

unfoldable pub valid_confidence : String → Option Confidence
valid_confidence s =
    if s == "high"
    then some high
    else if s == "medium"
    then some medium
    else if s == "low"
    then some low
    else none

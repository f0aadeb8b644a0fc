-- ===== src/Summary/Response.antt =====
-- services/dashboard_contract/serializer.py: the response for a stored summary.
pub mod Counts
use financial_pdf_reader.Base.{ℕ, String, Bool}
use financial_pdf_reader.Base.{not, ◌&&◌, List, map, length, count_if}
use financial_pdf_reader.Base.{is_empty, if◌then◌else◌}
use financial_pdf_reader.Text.{Text, codes}
use financial_pdf_reader.Contract.{ContractError}
use financial_pdf_reader.Models.{
  AiClaim, ClaimType, ClaimLevel, Materiality, SectionKey, SourceType, Confidence, ClaimEvidence,
  is_insufficient,
}
use financial_pdf_reader.Summary.Entries.{Dashboard}
use financial_pdf_reader.Summary.Report.{EvidenceStatus, CompletenessWarning}
use financial_pdf_reader.Summary.Generate.{StoredSummary}

-- The dicts of the response.
pub record EvidenceView : Type 0 where
  pub page : Text
  pub section : Text
  pub quoted_text : Text

pub record ClaimView : Type 0 where
  pub claim_id : String
  pub claim : Text
  pub claim_type : ClaimType
  pub claim_level : ClaimLevel
  pub materiality : Materiality
  pub section_key : SectionKey
  pub recurring : Bool
  pub contaminated : Bool
  pub source_type : SourceType
  pub forward_looking : Bool
  pub rhetorical_risk_flag : Bool
  pub rhetorical_risk_terms : List Text
  pub attribution_prefix : Text
  pub confidence : Confidence
  pub requires_human_review : Bool
  pub evidence : List EvidenceView

pub record SummaryResponse : Type 0 where
  pub report_id : String
  pub document_id : String
  pub stock_id : String
  pub period : String
  pub temporal_consistent : Bool
  pub temporal_note : Text
  pub document_period : Text
  pub requested_period : Text
  pub executive_summary : Text
  pub total_claims : ℕ
  pub contaminated_count : ℕ
  pub insufficient_evidence_count : ℕ
  pub evidence_status : EvidenceStatus
  pub investment_advice_detected : Bool
  pub narrative_density_score : ℕ
  pub narrative_density_weighted_score : ℕ
  pub narrative_flag : Bool
  pub dashboard : Dashboard
  pub dashboard_contract_valid : Bool
  pub dashboard_contract_errors : List ContractError
  pub completeness_warnings : List CompletenessWarning
  pub claims : List ClaimView

abbrev pub evidence_view : ClaimEvidence → EvidenceView
evidence_view e = record { page = e.page; section = e.section; quoted_text = e.quoted_text }

abbrev pub claim_view : AiClaim → ClaimView
claim_view c = record {
  claim_id = c.claim_id;
  claim = c.claim;
  claim_type = c.claim_type;
  claim_level = c.claim_level;
  materiality = c.materiality;
  section_key = c.section_key;
  recurring = c.recurring;
  contaminated = c.contaminated;
  source_type = c.source_type;
  forward_looking = c.forward_looking;
  rhetorical_risk_flag = c.rhetorical_risk_flag;
  rhetorical_risk_terms = c.rhetorical_risk_terms;
  attribution_prefix = c.attribution_prefix;
  confidence = c.confidence;
  requires_human_review = c.requires_human_review;
  evidence = map evidence_view c.evidence;
}

-- `given or report.period`
abbrev pub period_or : Text → String → Text
period_or given period = if is_empty given then codes period else given

-- The two periods are passed on by `generate_summary`.
unfoldable pub serialize_summary_response : StoredSummary → SummaryResponse
serialize_summary_response r = record {
  report_id = r.report_id;
  document_id = r.document_id;
  stock_id = r.stock_id;
  period = r.period;
  temporal_consistent = r.summary.temporal.consistent;
  temporal_note = r.summary.temporal.note;
  document_period = period_or r.summary.temporal.document_period r.period;
  requested_period = period_or r.summary.temporal.requested_period r.period;
  executive_summary = r.summary.executive_summary;
  total_claims = length r.summary.claims;
  contaminated_count = count_if (λ c. c.contaminated) r.summary.claims;
  insufficient_evidence_count =
      count_if (λ c. is_insufficient c.claim_level && not c.contaminated) r.summary.claims;
  evidence_status = r.summary.evidence_status;
  investment_advice_detected = r.summary.investment_advice_detected;
  narrative_density_score = r.summary.narrative_density_score;
  narrative_density_weighted_score = r.summary.narrative_density_weighted_score;
  narrative_flag = r.summary.narrative_flag;
  dashboard = r.summary.dashboard;
  dashboard_contract_valid = r.summary.dashboard_contract_valid;
  dashboard_contract_errors = r.summary.dashboard_contract_errors;
  completeness_warnings = r.summary.completeness_warnings;
  claims = map claim_view r.summary.claims;
}

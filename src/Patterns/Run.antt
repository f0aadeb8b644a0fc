-- ===== src/Patterns/Run.antt =====
-- services/reasoning_patterns/__init__.py with models/patterns: `run_pattern_analysis`.
--
-- The stored documents and reports are lists that are searched; a run identifier is an argument.
use financial_pdf_reader.Base.{ℕ, String, Bool, true, false, not, Option, none, some}
use financial_pdf_reader.Base.{List, [], ◌∷◌, map, select, leb, count_if, ◌==◌, string_eq}
use financial_pdf_reader.Base.Dict
use financial_pdf_reader.Base.Dict.{Dict}
use financial_pdf_reader.Base.Sort.{sorted}
use financial_pdf_reader.Base.Result.{◌>>=◌, ◌>>◌, Result, ok, guard, found_or}
use financial_pdf_reader.Text.{Text}
use financial_pdf_reader.Models.{
  AiClaim, ClaimType, ClaimLevel, Materiality, SectionKey, financial_observation, management_tone,
  risk_factor, accounting_note, numeric_cross_check, observed_fact, derived_metric, interpretation,
  hypothesis, tier_a, tier_b, tier_c, key_financials, accounting_adjustments, liquidity,
  risk_register, pipeline, evidence_gaps,
}
use financial_pdf_reader.Models
use financial_pdf_reader.Documents.{PdfDocument, DocumentStatus, is_completed}
use financial_pdf_reader.Audit.{ReportDocument, first}
use financial_pdf_reader.Patterns.{
  ClaimEntry, PatternDefinition, FilterLabel, TriggerStatus, triggered, not_triggered,
  insufficient_evidence, TriggerResult, evaluate_pattern,
}
use financial_pdf_reader.Patterns.Registry.{pattern_registry}

abbrev pub claim_type_name : ClaimType → String
claim_type_name financial_observation = "financial_observation"
claim_type_name management_tone = "management_tone"
claim_type_name risk_factor = "risk_factor"
claim_type_name accounting_note = "accounting_note"
claim_type_name numeric_cross_check = "numeric_cross_check"

abbrev pub claim_level_name : ClaimLevel → String
claim_level_name observed_fact = "observed_fact"
claim_level_name derived_metric = "derived_metric"
claim_level_name interpretation = "interpretation"
claim_level_name hypothesis = "hypothesis"
claim_level_name Models.insufficient_evidence = "insufficient_evidence"

abbrev pub materiality_name : Materiality → String
materiality_name tier_a = "tier_a"
materiality_name tier_b = "tier_b"
materiality_name tier_c = "tier_c"

abbrev pub section_key_name : SectionKey → String
section_key_name key_financials = "key_financials"
section_key_name accounting_adjustments = "accounting_adjustments"
section_key_name liquidity = "liquidity"
section_key_name risk_register = "risk_register"
section_key_name pipeline = "pipeline"
section_key_name evidence_gaps = "evidence_gaps"

-- `PatternRunResult`
pub record PatternRunResult : Type 0 where
  pub pattern_id : String
  pub name_zh : String
  pub status : TriggerStatus
  pub generated_observation : String
  pub source_claim_ids : List String
  pub missing_evidence_keys : List FilterLabel
  pub requires_review : Bool

-- `PatternRunReport`, without its time stamp.
pub record PatternRunReport : Type 0 where
  pub run_id : String
  pub document_id : String
  pub stock_id : String
  pub period : String
  pub results : List PatternRunResult
  pub triggered_count : ℕ
  pub not_triggered_count : ℕ
  pub insufficient_count : ℕ

-- The dicts of the response.
pub record SourceEntry : Type 0 where
  pub claim_id : String
  pub claim : Text
  pub section_key : String
  pub materiality : String

pub record PatternEntry : Type 0 where
  pub pattern_id : String
  pub name_zh : String
  pub status : TriggerStatus
  pub generated_observation : String
  pub requires_review : Bool
  pub claim_level : ClaimLevel
  pub in_key_findings : Bool
  pub source_claims : List SourceEntry
  pub missing_evidence_keys : List FilterLabel

pub record PatternResponse : Type 0 where
  pub run_id : String
  pub document_id : String
  pub stock_id : String
  pub period : String
  pub triggered_count : ℕ
  pub not_triggered_count : ℕ
  pub insufficient_count : ℕ
  pub results : List PatternEntry

pub data PatternError : Type 0 where
  document_not_found : String → PatternError
  not_ingested : String → DocumentStatus → PatternError
  no_report : PatternError

unfoldable pub claim_to_dict : AiClaim → ClaimEntry
claim_to_dict c = record {
  claim_id = c.claim_id;
  claim = c.claim;
  claim_type = claim_type_name c.claim_type;
  claim_level = claim_level_name c.claim_level;
  materiality = materiality_name c.materiality;
  section_key = section_key_name c.section_key;
  recurring = some c.recurring;
  contaminated = c.contaminated;
}

unfoldable pub clean_claims : List AiClaim → List ClaimEntry
unfolding claim_to_dict
clean_claims cs = map claim_to_dict (select (λ c. not c.contaminated) cs)

abbrev pub is_triggered_status : TriggerStatus → Bool
is_triggered_status triggered = true
is_triggered_status _ = false

abbrev pub is_not_triggered_status : TriggerStatus → Bool
is_not_triggered_status not_triggered = true
is_not_triggered_status _ = false

abbrev pub is_insufficient_status : TriggerStatus → Bool
is_insufficient_status insufficient_evidence = true
is_insufficient_status _ = false

unfoldable pub run_result : PatternDefinition → TriggerResult → PatternRunResult
run_result pattern trigger = record {
  pattern_id = pattern.pattern_id;
  name_zh = pattern.name_zh;
  status = trigger.status;
  generated_observation = trigger.generated_observation;
  source_claim_ids = map (λ c. c.claim_id) trigger.source_claims;
  missing_evidence_keys = trigger.missing_keys;
  requires_review = is_triggered_status trigger.status;
}

unfoldable pub run_results : List PatternDefinition → List ClaimEntry → List PatternRunResult
unfolding run_result
run_results patterns claims = map (λ p. run_result p (evaluate_pattern p claims)) patterns

unfoldable pub run_report : String → String → PdfDocument → List PatternRunResult → PatternRunReport
run_report run_id document_id doc results = record {
  run_id = run_id;
  document_id = document_id;
  stock_id = doc.stock_id;
  period = doc.period;
  results = results;
  triggered_count = count_if (λ r. is_triggered_status r.status) results;
  not_triggered_count = count_if (λ r. is_not_triggered_status r.status) results;
  insufficient_count = count_if (λ r. is_insufficient_status r.status) results;
}

-- `{c["claim_id"]: c for c in clean_claims}`, added to a dict.
unfoldable pub claim_lookup : Dict String ClaimEntry → List ClaimEntry → Dict String ClaimEntry
claim_lookup d [] = d
claim_lookup d (c ∷ cs) = claim_lookup (Dict.insert c.claim_id c d) cs

unfoldable pub source_entry_of : String → Option ClaimEntry → SourceEntry
source_entry_of id none = record { claim_id = id; claim = []; section_key = ""; materiality = "" }
source_entry_of id (some c) = record {
  claim_id = id;
  claim = c.claim;
  section_key = c.section_key;
  materiality = c.materiality;
}

unfoldable pub result_entry : Dict String ClaimEntry → PatternRunResult → PatternEntry
result_entry d r = record {
  pattern_id = r.pattern_id;
  name_zh = r.name_zh;
  status = r.status;
  generated_observation = r.generated_observation;
  requires_review = r.requires_review;
  claim_level = interpretation;
  in_key_findings = false;
  source_claims = map (λ id. source_entry_of id (Dict.lookup id d)) r.source_claim_ids;
  missing_evidence_keys = r.missing_evidence_keys;
}

unfoldable pub response_of : PatternRunReport → List ClaimEntry → PatternResponse
response_of run claims = record {
  run_id = run.run_id;
  document_id = run.document_id;
  stock_id = run.stock_id;
  period = run.period;
  triggered_count = run.triggered_count;
  not_triggered_count = run.not_triggered_count;
  insufficient_count = run.insufficient_count;
  results = map (result_entry (claim_lookup [] claims)) run.results;
}

-- The report of the run, which is saved, and the response.
unfoldable pub run_pattern_analysis :
    List PdfDocument
    → List ReportDocument
    → String
    → String
    → Result PatternError (PatternRunReport × PatternResponse)
run_pattern_analysis docs reports run_id document_id = do
  doc ←
      found_or (first (select (λ d. d.document_id == document_id) docs))
        (document_not_found document_id)
  guard (is_completed doc.status) (not_ingested document_id doc.status)
  report ←
      found_or
        (first (
          sorted (λ a b. leb b.created_at a.created_at)
            (select (λ r. r.document_id == document_id) reports)))
        no_report
  let claims = clean_claims report.claims
  let run = run_report run_id document_id doc (run_results pattern_registry claims)
  ok (run, response_of run claims)

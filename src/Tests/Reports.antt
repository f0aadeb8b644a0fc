-- ===== src/Tests/Reports.antt =====
-- core/governance.py, services/audit and `_parse_claims` at concrete inputs.
use financial_pdf_reader.Base.{ℕ, ◌≡◌, refl, ◌↔◌, true, false, none, some}
use financial_pdf_reader.Base.{List, [], ◌∷◌, All, map, count_if, length, or_default, string_eq}
use financial_pdf_reader.Text.{codes}
use financial_pdf_reader.Base.Result.{ok}
use financial_pdf_reader.Models.{derived_metric, interpretation, is_inferred}
use financial_pdf_reader.Models.Parse.{valid_claim_level, valid_source_type}
use financial_pdf_reader.Governance.{ClaimDict, EvidenceDict, audit_claims, passed, r7}
use financial_pdf_reader.Governance.Report.{
  IsClean, IsBlocking, IsAdvisory, audit_claims-passed_iff, audit_claims-partition,
}
use financial_pdf_reader.Summary.Claims.{RawClaim, parse_claim, parse_claims}
use financial_pdf_reader.Summary.Claims.Laws.{IsGoverned, parse_claim-IsGoverned}
use financial_pdf_reader.Summary.Claims.Contamination.{
  IsLateInterpretation, parse_claim-escapes_iff,
}
use financial_pdf_reader.Base.{all, any, is_empty}
use financial_pdf_reader.Text.{is_space}
use financial_pdf_reader.Text.Strip.{lstrip_by, rstrip_by}
use financial_pdf_reader.Summary.Report.{
  RawAnswer, SummaryReport, complete, insufficient, summarize_answer,
}
use financial_pdf_reader.Summary.Report.Laws.{
  clean_of, is_gap, summarize_answer-evidence, summarize_answer-unrequested,
}
use financial_pdf_reader.Audit.{AuditReport, ReportDocument, claim_to_dict, find_report, run_audit}
use financial_pdf_reader.Audit.{DiffAuditReport, run_diff_audit}
use financial_pdf_reader.Models.Diffs.{text_value, DiffReport}
use financial_pdf_reader.Audit.Diffs.{is_unmarked_item, run_diff_audit-counts}
use financial_pdf_reader.Audit.Laws.{run_audit-parsed}

abbrev quoted : EvidenceDict
quoted = record { document_id = some "other"; quoted_text = some (codes "revenue grew by 5%") }

abbrev claims : List ClaimDict
claims =
    record {
      claim_id = some "one";
      claim = some (codes "revenue grew");
      claim_level = some derived_metric;
      evidence = some (quoted ∷ []);
    }
    ∷ record {
      claim_id = none;
      claim = some (codes "our Target Price is 600");
      claim_level = some interpretation;
      evidence = none;
    }
    ∷ []

audit_claims-passed_iff_example :
    (passed (audit_claims "r" "d" claims false) ≡ true) ↔ ((false ≡ false) × All IsClean claims)
audit_claims-passed_iff_example = audit_claims-passed_iff "r" "d" claims false

audit_claims-partition_example :
    All IsBlocking (audit_claims "r" "d" claims true).violations
    × All IsAdvisory (audit_claims "r" "d" claims true).warnings
audit_claims-partition_example = audit_claims-partition "r" "d" claims true

-- An expectation with indicator words, that the model calls an observed fact of high confidence.
abbrev raw : RawClaim
raw = record {
  claim_id = none;
  claim = some (codes "預期下半年營收成長");
  claim_type = some "management_tone";
  claim_level = some "observed_fact";
  materiality = some "tier_a";
  section_key = some "pipeline";
  recurring = none;
  contaminated = none;
  source_type = some "management_expectation";
  forward_looking = none;
  evidence =
      some (
        record { page = some (codes "12"); section = none; quoted_text = some (codes "預期成長") }
        ∷ []);
  confidence = some "high";
  requires_human_review = none;
}

parse_claim-IsGoverned_example : IsGoverned "d" (parse_claim "d" true "fresh" raw)
parse_claim-IsGoverned_example = parse_claim-IsGoverned "d" true "fresh" raw

parse_claim-escapes_iff_example :
    ((is_inferred (parse_claim "d" false "fresh" raw).claim_level ≡ true)
      × ((parse_claim "d" false "fresh" raw).contaminated ≡ false))
    ↔ (IsLateInterpretation raw × (false ≡ false))
parse_claim-escapes_iff_example = parse_claim-escapes_iff "d" "fresh" raw

-- The observed fact of a narrative source is set down after the test for contamination.
escape_test :
    ((parse_claim "d" false "fresh" raw).claim_level ≡ interpretation)
    × ((parse_claim "d" false "fresh" raw).contaminated ≡ false)
unfolding parse_claim valid_source_type valid_claim_level
escape_test = (refl, refl)

abbrev stored_report : ReportDocument
stored_report = record {
  report_id = "r";
  document_id = "d";
  claims = parse_claims "d" true (λ _. "fresh") (raw ∷ []);
  investment_advice_detected = false;
  created_at = 7;
}

run_audit-parsed_example :
    (r : AuditReport) × (run_audit (stored_report ∷ []) "d" (some "r") ≡ ok r)
    × All (λ v. v.rule ≡ r7) r.warnings
    × ((r.passed ≡ true) ↔ ((false ≡ false) × All IsClean (map claim_to_dict stored_report.claims)))
unfolding find_report
run_audit-parsed_example =
    run_audit-parsed (stored_report ∷ []) "d" (some "r") stored_report true (λ _. "fresh")
      (raw ∷ []) refl refl

abbrev answer : RawAnswer
answer = record {
  temporal_validation = record {
    is_consistent = some false;
    mismatch_note = some (codes "2024Q4 is not 2025Q1");
    document_period = some (codes "2024Q4");
    requested_period = some (codes " N/A ");
  };
  executive_summary = none;
  claims = raw ∷ [];
}

abbrev rounded : ℕ → ℕ → ℕ
rounded part whole = part

abbrev summary : SummaryReport
summary = summarize_answer rounded rounded "d" (codes "2025Q1") (λ _. "fresh") (codes "{}") answer

summarize_answer-evidence_example :
    (summary.dashboard_contract_valid ≡ true)
    × All (IsGoverned "d") summary.claims
    × ((summary.evidence_status ≡ insufficient) ↔ (all is_gap (clean_of summary.claims) ≡ true))
    × ((summary.evidence_status ≡ complete) ↔ (
        (is_empty (clean_of summary.claims) ≡ false)
        × (any is_gap (clean_of summary.claims) ≡ false)))
summarize_answer-evidence_example =
    summarize_answer-evidence rounded rounded "d" (codes "2025Q1") (λ _. "fresh") (codes "{}")
      answer

summarize_answer-unrequested_example :
    (summary.temporal.consistent ≡ true)
    × (any (λ c. c.contaminated) summary.claims
        ≡ any (λ item. or_default item.contaminated false) answer.claims)
unfolding lstrip_by rstrip_by is_space
summarize_answer-unrequested_example =
    summarize_answer-unrequested rounded rounded "d" (codes "2025Q1") (λ _. "fresh") (codes "{}")
      answer refl

abbrev diff_report : DiffReport
diff_report = record {
  diff_report_id = "x";
  current_document_id = "d";
  previous_document_id = "c";
  stock_id = "2330";
  current_period = "2024Q2";
  previous_period = "2024Q1";
  items =
      record {
        diff_id = text_value "a";
        section = "risk_factors";
        diff_type = "tone_shift";
        description = text_value (codes "more careful");
        current_summary = [];
        previous_summary = [];
        evidence = none;
        requires_human_review = true;
        tone_only = false;
      }
      ∷ [];
  sections_compared = "risk_factors" ∷ [];
  sections_only_current = [];
  sections_only_previous = [];
  requires_human_review = true;
}

run_diff_audit-counts_example :
    (r : DiffAuditReport) × (run_diff_audit (diff_report ∷ []) "x" ≡ ok r)
    × (r.violation_count ≡ count_if is_unmarked_item diff_report.items)
    × (r.warning_count ≡ 0)
    × (r.total_items ≡ length diff_report.items)
run_diff_audit-counts_example = run_diff_audit-counts (diff_report ∷ []) "x" diff_report refl

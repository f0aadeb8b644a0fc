-- ===== src/Audit.antt =====
-- services/audit/__init__.py: the audits of stored reports, over the rules of core/governance.py.
--
-- A query is a search in the list of stored reports. A time stamp is a number; reports of the same
-- instant keep the order of the list.
pub mod Laws
pub mod Diffs
use financial_pdf_reader.Base.{ℕ}
use financial_pdf_reader.Base.{String}
use financial_pdf_reader.Base.{Bool, true, false, ◌&&◌, Option, none, some}
use financial_pdf_reader.Base.{List, [], ◌∷◌, map, leb, eqb, if◌then◌else◌}
use financial_pdf_reader.Base.{or_default, length}
use financial_pdf_reader.Base.{any, select}
use financial_pdf_reader.Base.{◌==◌, nat_eq, string_eq, text_eq}
use financial_pdf_reader.Models.{AiClaim}
use financial_pdf_reader.Models.Diffs.{text_of, DiffItem, DiffReport}
use financial_pdf_reader.Governance.{
  Rule, r1, r2, r3, r4, r5, r6, r7, GovernanceViolation, GovernanceAuditResult, ClaimDict, DiffDict,
  violation_count, warning_count, passed, audit_claims, audit_diff_items,
}
use financial_pdf_reader.Base.Sort.{sorted}
use financial_pdf_reader.Base.Result.{◌>>=◌, Result, ok, found_or}

-- `AIReport`, as far as the audit reads it.
pub record ReportDocument : Type 0 where
  pub report_id : String
  pub document_id : String
  pub claims : List AiClaim
  pub investment_advice_detected : Bool
  pub created_at : ℕ

unfoldable pub claim_to_dict : AiClaim → ClaimDict
claim_to_dict c = record {
  claim_id = some c.claim_id;
  claim = some c.claim;
  claim_level = some c.claim_level;
  evidence = some (
      map (λ e. record { document_id = some e.document_id; quoted_text = some e.quoted_text })
        c.evidence);
}

-- The sentence of `_build_summary`, as the values that it shows.
pub data Summary : Type 0 where
  clean : ℕ → Summary
  with_warnings : ℕ → ℕ → Summary
  failed_by : ℕ → ℕ → List Rule → ℕ → Summary

abbrev pub same_rule : Rule → Rule → Bool
same_rule r1 r1 = true
same_rule r2 r2 = true
same_rule r3 r3 = true
same_rule r4 r4 = true
same_rule r5 r5 = true
same_rule r6 r6 = true
same_rule r7 r7 = true
same_rule _ _ = false

abbrev pub all_rules : List Rule
all_rules = r1 ∷ r2 ∷ r3 ∷ r4 ∷ r5 ∷ r6 ∷ r7 ∷ []

-- `sorted({v.rule for v in violations})`
abbrev pub rules_in : List GovernanceViolation → List Rule
rules_in vs = select (λ r. any (λ v. same_rule r v.rule) vs) all_rules

unfoldable pub build_summary : GovernanceAuditResult → Summary
build_summary r =
    if passed r && eqb (warning_count r) 0
    then clean r.total_claims
    else if passed r
    then with_warnings r.total_claims (warning_count r)
    else failed_by r.total_claims (violation_count r) (rules_in r.violations) (warning_count r)

pub data AuditError : Type 0 where
  report_not_found : String → AuditError
  diff_report_not_found : String → AuditError

-- The dict that `run_audit` returns.
pub record AuditReport : Type 0 where
  pub report_id : String
  pub document_id : String
  pub total_claims : ℕ
  pub passed : Bool
  pub violation_count : ℕ
  pub warning_count : ℕ
  pub violations : List GovernanceViolation
  pub warnings : List GovernanceViolation
  pub summary : Summary

-- The dict that `run_diff_audit` returns.
pub record DiffAuditReport : Type 0 where
  pub diff_report_id : String
  pub current_document_id : String
  pub previous_document_id : String
  pub total_items : ℕ
  pub passed : Bool
  pub violation_count : ℕ
  pub warning_count : ℕ
  pub violations : List GovernanceViolation
  pub warnings : List GovernanceViolation
  pub summary : Summary

-- `.first()`
abbrev pub first {ℓ} : {A : Type ℓ} → List A → Option A
first [] = none
first (x ∷ xs) = some x

-- The query of `run_audit`: a report by its identifier if one is given that is not empty, and else
-- the latest of the document.
unfoldable pub find_report : String → Option String → List ReportDocument → Option ReportDocument
find_report doc id reports =
    let of_document = select (λ r. r.document_id == doc) reports in
    if or_default id "" == ""
    then first (sorted (λ a b. leb b.created_at a.created_at) of_document)
    else first (select (λ r. r.report_id == or_default id "") of_document)

unfoldable pub audit_report : GovernanceAuditResult → AuditReport
audit_report r = record {
  report_id = r.report_id;
  document_id = r.document_id;
  total_claims = r.total_claims;
  passed = passed r;
  violation_count = violation_count r;
  warning_count = warning_count r;
  violations = r.violations;
  warnings = r.warnings;
  summary = build_summary r;
}

unfoldable pub run_audit :
    List ReportDocument → String → Option String → Result AuditError AuditReport
run_audit reports doc id = do
  report ← found_or (find_report doc id reports) (report_not_found doc)
  ok (
      audit_report (
        audit_claims report.report_id doc (map claim_to_dict report.claims)
          report.investment_advice_detected))

unfoldable pub diff_audit_report : DiffReport → GovernanceAuditResult → DiffAuditReport
diff_audit_report report r = record {
  diff_report_id = report.diff_report_id;
  current_document_id = report.current_document_id;
  previous_document_id = report.previous_document_id;
  total_items = length report.items;
  passed = passed r;
  violation_count = violation_count r;
  warning_count = warning_count r;
  violations = r.violations;
  warnings = r.warnings;
  summary = build_summary r;
}

abbrev pub item_dict : DiffItem → DiffDict
item_dict i = record {
  diff_id = text_of i.diff_id;
  diff_type = some i.diff_type;
  tone_only = some i.tone_only;
}

unfoldable pub run_diff_audit : List DiffReport → String → Result AuditError DiffAuditReport
run_diff_audit reports id = do
  report ←
      found_or (first (select (λ r. r.diff_report_id == id) reports)) (diff_report_not_found id)
  ok (
      diff_audit_report report (
        audit_diff_items report.diff_report_id report.current_document_id
          (map item_dict report.items)))

-- ===== src/Governance.antt =====
-- core/governance.py: the rules R1 to R7 and the two audits.
--
-- A claim and its evidence are dicts with optional keys. A description is kept as data: a
-- constructor for each message, with the values that the f-string puts in.
pub mod Report
pub mod Claims
pub mod Diffs
use financial_pdf_reader.Base.{ℕ, String, Bool, true, false, not, ◌&&◌, ◌||◌, Option, none, some}
use financial_pdf_reader.Base.{List, []}
use financial_pdf_reader.Base.{◌∷◌, ◌++◌, length, is_empty, any, select, or_default}
use financial_pdf_reader.Base.{if◌then◌else◌, ◌==◌, string_eq}
use financial_pdf_reader.Text.{Text, texts, lower, is_in, is_space}
use financial_pdf_reader.Text.Strip.{strip_by}
use financial_pdf_reader.Models.{ClaimLevel, interpretation, hypothesis, insufficient_evidence}
use financial_pdf_reader.Models.{is_derived_metric}

-- `GovernanceViolation.rule`
pub data Rule : Type 0 where
  r1 r2 r3 r4 r5 r6 r7 : Rule

pub data Severity : Type 0 where
  error warning : Severity

pub data Description : Type 0 where
  no_evidence : Description
  no_quoted_text : Description
  level_without_evidence : ClaimLevel → Description
  advice_in_report : Description
  advice_in_claim : List Text → Description
  other_document : String → Description
  tone_not_marked : Description
  trend_in_claim : List Text → Description

pub record GovernanceViolation : Type 0 where
  pub rule : Rule
  pub description : Description
  pub claim_id : Option String
  pub severity : Severity
  pub auto_fixed : Bool
  pub fix_description : String

pub record GovernanceAuditResult : Type 0 where
  pub report_id : String
  pub document_id : String
  pub total_claims : ℕ
  pub violations : List GovernanceViolation
  pub warnings : List GovernanceViolation

-- The `evidence` dict of a claim, as far as the rules read it.
pub record EvidenceDict : Type 0 where
  pub document_id : Option String
  pub quoted_text : Option Text

-- The claim dict that `audit_claims` takes.
pub record ClaimDict : Type 0 where
  pub claim_id : Option String
  pub claim : Option Text
  pub claim_level : Option ClaimLevel
  pub evidence : Option (List EvidenceDict)

-- The item dict that `audit_diff_items` takes; `diff_type` is any string.
pub record DiffDict : Type 0 where
  pub diff_id : Option String
  pub diff_type : Option String
  pub tone_only : Option Bool

abbrev pub violation_count : GovernanceAuditResult → ℕ
violation_count r = length r.violations

abbrev pub warning_count : GovernanceAuditResult → ℕ
warning_count r = length r.warnings

abbrev pub passed : GovernanceAuditResult → Bool
passed r = is_empty r.violations

-- `_R7_TREND_PHRASES`
abbrev pub trend_phrases : List Text
trend_phrases = texts (
    "長期趨勢" ∷ "持續成長" ∷ "未來幾年" ∷ "長期而言" ∷ "趨勢持續" ∷ "long-term trend" ∷ "sustained growth"
    ∷ "over the next few years" ∷ "consistent growth" ∷ "trend will continue" ∷ [])

-- `_R4_ADVICE_PHRASES`
abbrev pub advice_phrases : List Text
advice_phrases = texts (
    "建議買入" ∷ "建議賣出" ∷ "建議持有" ∷ "投資建議" ∷ "目標價" ∷ "buy recommendation" ∷ "sell recommendation"
    ∷ "hold recommendation" ∷ "investment advice" ∷ "target price" ∷ [])

-- The dataclass's defaults: an error that no service has mended.
abbrev violation : Rule → Option String → Description → Severity → GovernanceViolation
violation rule id description severity = record {
  rule = rule;
  description = description;
  claim_id = id;
  severity = severity;
  auto_fixed = false;
  fix_description = "";
}

unfoldable pub check_r1 : String → List EvidenceDict → Option GovernanceViolation
check_r1 id evidence =
    if is_empty evidence then some (violation r1 (some id) no_evidence error) else none

-- `bool(str(e.get("quoted_text") or "").strip())`
unfoldable pub has_quote : EvidenceDict → Bool
has_quote e = not (is_empty (strip_by is_space (or_default e.quoted_text [])))

unfoldable pub check_r2 : String → ClaimLevel → List EvidenceDict → Option GovernanceViolation
check_r2 id level evidence =
    if not (is_derived_metric level)
    then none
    else if any has_quote evidence
    then none
    else some (violation r2 (some id) no_quoted_text error)

-- `claim_level in {"hypothesis", "insufficient_evidence"}`
abbrev pub allowed_no_evidence : ClaimLevel → Bool
allowed_no_evidence hypothesis = true
allowed_no_evidence insufficient_evidence = true
allowed_no_evidence _ = false

unfoldable pub check_r3 : String → ClaimLevel → List EvidenceDict → Option GovernanceViolation
check_r3 id level evidence =
    if not (is_empty evidence) || allowed_no_evidence level
    then none
    else some (record {
      rule = r3;
      description = level_without_evidence level;
      claim_id = some id;
      severity = error;
      auto_fixed = true;
      fix_description = "summarization service 已於 generate_summary() 自動降級";
    })

unfoldable pub check_r4_report : Bool → Option GovernanceViolation
check_r4_report detected =
    if detected then some (violation r4 none advice_in_report error) else none

-- `[p for p in phrases if p.lower() in text.lower()]`
unfoldable pub found_phrases : List Text → Text → List Text
found_phrases phrases text = select (λ p. is_in (lower p) (lower text)) phrases

unfoldable pub check_r4_claim : String → Text → Option GovernanceViolation
check_r4_claim id text =
    let found = found_phrases advice_phrases text in
    if is_empty found then none else some (violation r4 (some id) (advice_in_claim found) error)

-- The test of one evidence item: `ev_doc and ev_doc != document_id`.
abbrev pub cites_other : String → EvidenceDict → Bool
cites_other doc e =
    not (or_default e.document_id "" == "") && not (or_default e.document_id "" == doc)

unfoldable pub check_r5 : String → String → List EvidenceDict → Option GovernanceViolation
check_r5 id doc [] = none
check_r5 id doc (e ∷ evidence) =
    let rest = check_r5 id doc evidence in
    if cites_other doc e
    then some (violation r5 (some id) (other_document (or_default e.document_id "")) warning)
    else rest

unfoldable pub check_r7_claim : String → Text → Option GovernanceViolation
check_r7_claim id text =
    let found = found_phrases trend_phrases text in
    if is_empty found then none else some (violation r7 (some id) (trend_in_claim found) warning)

unfoldable pub check_r6_diff : String → String → Bool → Option GovernanceViolation
check_r6_diff id type tone_only =
    if not (type == "tone_shift")
    then none
    else if tone_only
    then none
    else some (violation r6 (some id) tone_not_marked error)

-- `if v: result.violations.append(v)`
abbrev pub add_violation :
    Option GovernanceViolation → GovernanceAuditResult → GovernanceAuditResult
add_violation none r = r
add_violation (some v) r = record r { violations = r.violations ++ (v ∷ []) }

-- `if v: result.warnings.append(v)`
abbrev pub add_warning : Option GovernanceViolation → GovernanceAuditResult → GovernanceAuditResult
add_warning none r = r
add_warning (some v) r = record r { warnings = r.warnings ++ (v ∷ []) }

-- An R3 violation that was mended is a warning.
abbrev pub add_r3 : Option GovernanceViolation → GovernanceAuditResult → GovernanceAuditResult
add_r3 none r = r
add_r3 (some v) r = if v.auto_fixed then add_warning (some v) r else add_violation (some v) r

-- One round of the loop of `audit_claims`.
unfoldable pub audit_claim : String → ClaimDict → GovernanceAuditResult → GovernanceAuditResult
audit_claim doc c result =
    let id = or_default c.claim_id "unknown" in
    let text = or_default c.claim [] in
    let level = or_default c.claim_level interpretation in
    let evidence = or_default c.evidence [] in
    let after_r1 = add_violation (check_r1 id evidence) result in
    let after_r2 = add_violation (check_r2 id level evidence) after_r1 in
    let after_r3 = add_r3 (check_r3 id level evidence) after_r2 in
    let after_r4 = add_violation (check_r4_claim id text) after_r3 in
    let after_r5 = add_warning (check_r5 id doc evidence) after_r4 in
    add_warning (check_r7_claim id text) after_r5

unfoldable pub audit_loop : String → List ClaimDict → GovernanceAuditResult → GovernanceAuditResult
audit_loop doc [] result = result
audit_loop doc (c ∷ claims) result = audit_loop doc claims (audit_claim doc c result)

abbrev pub new_result : String → String → ℕ → GovernanceAuditResult
new_result report doc total = record {
  report_id = report;
  document_id = doc;
  total_claims = total;
  violations = [];
  warnings = [];
}

unfoldable pub audit_claims : String → String → List ClaimDict → Bool → GovernanceAuditResult
unfolding audit_loop audit_claim
audit_claims report doc claims detected =
    audit_loop doc claims
      (add_violation (check_r4_report detected) (new_result report doc (length claims)))

-- One round of the loop of `audit_diff_items`.
unfoldable pub audit_diff_item : DiffDict → GovernanceAuditResult → GovernanceAuditResult
audit_diff_item item result =
    add_violation
      (check_r6_diff (or_default item.diff_id "unknown") (or_default item.diff_type "")
        (or_default item.tone_only false))
      result

unfoldable pub audit_diff_loop : List DiffDict → GovernanceAuditResult → GovernanceAuditResult
audit_diff_loop [] result = result
audit_diff_loop (item ∷ items) result = audit_diff_loop items (audit_diff_item item result)

unfoldable pub audit_diff_items : String → String → List DiffDict → GovernanceAuditResult
unfolding audit_diff_loop audit_diff_item
audit_diff_items report doc items = audit_diff_loop items (new_result report doc (length items))

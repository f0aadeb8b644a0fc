-- ===== src/Governance/Claims.antt =====
-- What one claim adds to the two lists of an audit, and the lists of a whole audit from those.
use financial_pdf_reader.Base.{String, ◌≡◌, refl, sym, ◌∙◌}
use financial_pdf_reader.Base.{Bool, Option, none, some}
use financial_pdf_reader.Base.{List, [], ◌∷◌, ◌++◌, arith}
use financial_pdf_reader.Base.{or_default}
use financial_pdf_reader.Base.{opt_list}
use financial_pdf_reader.Base.{nat_eq, string_eq, text_eq}
use financial_pdf_reader.Text.{Text}
use financial_pdf_reader.Models.{ClaimLevel, interpretation}
use financial_pdf_reader.Governance.{
  GovernanceViolation, GovernanceAuditResult, EvidenceDict, ClaimDict, check_r1, check_r2, check_r3,
  check_r4_report, check_r4_claim, check_r5, check_r7_claim, add_violation, add_warning, add_r3,
  audit_claim, audit_loop, audit_claims,
}
use mathlib.Core.List.{append_assoc, append-nil}
use financial_pdf_reader.Base.{concat_map}

-- The fields of a claim with the defaults of `audit_claims`.
abbrev pub id_of : ClaimDict → String
id_of c = or_default c.claim_id "unknown"

abbrev pub text_of : ClaimDict → Text
text_of c = or_default c.claim []

abbrev pub level_of : ClaimDict → ClaimLevel
level_of c = or_default c.claim_level interpretation

abbrev pub evidence_of : ClaimDict → List EvidenceDict
evidence_of c = or_default c.evidence []

-- The violations that a claim adds, in the order of the checks.
abbrev pub errors_of : ClaimDict → List GovernanceViolation
errors_of c =
    opt_list (check_r1 (id_of c) (evidence_of c))
    ++ (opt_list (check_r2 (id_of c) (level_of c) (evidence_of c))
        ++ opt_list (check_r4_claim (id_of c) (text_of c)))

abbrev pub warnings_of : String → ClaimDict → List GovernanceViolation
warnings_of doc c =
    opt_list (check_r3 (id_of c) (level_of c) (evidence_of c))
    ++ (opt_list (check_r5 (id_of c) doc (evidence_of c))
        ++ opt_list (check_r7_claim (id_of c) (text_of c)))

add_violation_violations :
    (v : Option GovernanceViolation) (r : GovernanceAuditResult)
    → (add_violation v r).violations ≡ r.violations ++ opt_list v
add_violation_violations none r = sym (append-nil _)
add_violation_violations (some v) r = refl

add_violation_warnings :
    (v : Option GovernanceViolation) (r : GovernanceAuditResult)
    → (add_violation v r).warnings ≡ r.warnings
add_violation_warnings none r = refl
add_violation_warnings (some v) r = refl

add_warning_violations :
    (v : Option GovernanceViolation) (r : GovernanceAuditResult)
    → (add_warning v r).violations ≡ r.violations
add_warning_violations none r = refl
add_warning_violations (some v) r = refl

add_warning_warnings :
    (v : Option GovernanceViolation) (r : GovernanceAuditResult)
    → (add_warning v r).warnings ≡ r.warnings ++ opt_list v
add_warning_warnings none r = sym (append-nil _)
add_warning_warnings (some v) r = refl

-- Every R3 violation is mended, so it is added as a warning.
add_r3-check_r3 :
    (id : String) (l : ClaimLevel) (ev : List EvidenceDict) (r : GovernanceAuditResult)
    → add_r3 (check_r3 id l ev) r ≡ add_warning (check_r3 id l ev) r
unfolding check_r3
add_r3-check_r3 id l ev r = ground arith

ruleset additions = (
  add_violation_violations, add_violation_warnings, add_warning_violations, add_warning_warnings,
  add_r3-check_r3, append_assoc,
)

pub audit_claim-violations :
    (doc : String) (c : ClaimDict) (r : GovernanceAuditResult)
    → (audit_claim doc c r).violations ≡ r.violations ++ errors_of c
unfolding audit_claim
audit_claim-violations doc c r = simp additions

pub audit_claim-warnings :
    (doc : String) (c : ClaimDict) (r : GovernanceAuditResult)
    → (audit_claim doc c r).warnings ≡ r.warnings ++ warnings_of doc c
unfolding audit_claim
audit_claim-warnings doc c r = simp additions

audit_loop-violations :
    (doc : String) (cs : List ClaimDict) (r : GovernanceAuditResult)
    → (audit_loop doc cs r).violations ≡ r.violations ++ concat_map errors_of cs
unfolding audit_loop
audit_loop-violations doc [] r = sym (append-nil _)
audit_loop-violations doc (c ∷ cs) r =
    rw (audit_loop-violations doc cs, audit_claim-violations)
      (append_assoc r.violations (errors_of c) (concat_map errors_of cs))

audit_loop-warnings :
    (doc : String) (cs : List ClaimDict) (r : GovernanceAuditResult)
    → (audit_loop doc cs r).warnings ≡ r.warnings ++ concat_map (warnings_of doc) cs
unfolding audit_loop
audit_loop-warnings doc [] r = sym (append-nil _)
audit_loop-warnings doc (c ∷ cs) r =
    rw (audit_loop-warnings doc cs, audit_claim-warnings)
      (append_assoc r.warnings (warnings_of doc c) (concat_map (warnings_of doc) cs))

pub audit_claims-violations :
    (report doc : String) (cs : List ClaimDict) (detected : Bool)
    → (audit_claims report doc cs detected).violations
      ≡ opt_list (check_r4_report detected) ++ concat_map errors_of cs
unfolding audit_claims
audit_claims-violations report doc cs detected =
    audit_loop-violations doc cs _ ∙ rw add_violation_violations

pub audit_claims-warnings :
    (report doc : String) (cs : List ClaimDict) (detected : Bool)
    → (audit_claims report doc cs detected).warnings ≡ concat_map (warnings_of doc) cs
unfolding audit_claims
audit_claims-warnings report doc cs detected =
    audit_loop-warnings doc cs _ ∙ rw add_violation_warnings

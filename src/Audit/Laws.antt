-- ===== src/Audit/Laws.antt =====
-- Which report is audited, and what an audit of parsed claims can say.
use financial_pdf_reader.Base.{ℕ}
use financial_pdf_reader.Base.{String, ◌≡◌, refl, sym, ap, ◌∙◌, ◌↔◌}
use financial_pdf_reader.Base.{Bool, true, false, Option, none, some}
use financial_pdf_reader.Base.{List, [], ◌∷◌, ◌++◌, map, arith}
use financial_pdf_reader.Base.{is_empty, opt_list}
use financial_pdf_reader.Base.{All, All-append, eq_iff, nat_eq, string_eq, text_eq}
use financial_pdf_reader.Text.{Text}
use financial_pdf_reader.Models.{ClaimLevel, insufficient_evidence, ClaimEvidence, AiClaim}
use financial_pdf_reader.Governance.{
  r7, GovernanceViolation, EvidenceDict, check_r3, check_r5, check_r7_claim, audit_claims,
}
use financial_pdf_reader.Governance.Claims.{warnings_of, audit_claims-warnings}
use financial_pdf_reader.Base.{concat_map, subst}
use financial_pdf_reader.Governance.Report.{IsClean, audit_claims-passed_iff}
use financial_pdf_reader.Base.Result.{ok}
use financial_pdf_reader.Audit.{
  ReportDocument, claim_to_dict, AuditReport, find_report, audit_report, run_audit,
}
use financial_pdf_reader.Summary.Claims.{RawClaim, parse_claims}
use financial_pdf_reader.Summary.Claims.Laws.{IsGoverned, parse_claims-IsGoverned}

-- The rule of a warning on a claim that summarization has parsed.
abbrev IsTrendWarning : GovernanceViolation → Type 0
IsTrendWarning v = v.rule ≡ r7

check_r3-none :
    (id : String) (l : ClaimLevel) (ev : List EvidenceDict)
    → (is_empty ev ≡ true → l ≡ insufficient_evidence)
    → check_r3 id l ev ≡ none
unfolding check_r3
check_r3-none id l [] h = rw (h refl) refl
check_r3-none id l (e ∷ ev) h = refl

check_r5-none :
    (id doc : String) (ev : List ClaimEvidence)
    → All (λ e. e.document_id ≡ doc) ev
    → check_r5 id doc (
        map (λ e. record { document_id = some e.document_id; quoted_text = some e.quoted_text }) ev)
      ≡ none
unfolding check_r5
check_r5-none id doc [] h = refl
check_r5-none id doc (e ∷ ev) (same, rest) =
    ground (arith, check_r5-none id doc ev rest, eq_iff e.document_id doc)

check_r7_claim-All : (id : String) (t : Text) → All IsTrendWarning (opt_list (check_r7_claim id t))
unfolding check_r7_claim
check_r7_claim-All id t = ground arith

map-is_empty {ℓ κ} :
    {A : Type ℓ} {B : Type κ} (f : A → B) (xs : List A) → is_empty (map f xs) ≡ is_empty xs
map-is_empty f [] = refl
map-is_empty f (x ∷ xs) = refl

warnings_of-All :
    (doc : String) (c : AiClaim)
    → IsGoverned doc c
    → All IsTrendWarning (warnings_of doc (claim_to_dict c))
unfolding claim_to_dict
warnings_of-All doc c g =
    rw
      (
        check_r3-none c.claim_id c.claim_level _
            (λ h. g.grounded (sym (map-is_empty _ c.evidence) ∙ h)),
        check_r5-none c.claim_id doc c.evidence g.same_document,
      )
      (check_r7_claim-All c.claim_id c.claim)

concat_map-map {ℓ κ μ} :
    {A : Type ℓ} {B : Type κ} {C : Type μ} (f : B → List C) (g : A → B) (xs : List A)
    → concat_map f (map g xs) ≡ concat_map (λ x. f (g x)) xs
concat_map-map f g [] = refl
concat_map-map f g (x ∷ xs) = ap (λ r. f (g x) ++ r) (concat_map-map f g xs)

concat_map-weaken {ℓ κ μ} :
    {A : Type ℓ} {B : Type κ} (P : A → Type μ) (Q : B → Type 0) (f : A → List B) (xs : List A)
    → ((x : A) → P x → All Q (f x))
    → All P xs
    → All Q (concat_map f xs)
concat_map-weaken P Q f [] g h = tt
concat_map-weaken P Q f (x ∷ xs) g (p, h) =
    All-append Q (f x) (concat_map f xs) (g x p) (concat_map-weaken P Q f xs g h)

audit_claims-All :
    (id doc : String) (cs : List AiClaim) (detected : Bool)
    → All (IsGoverned doc) cs
    → All IsTrendWarning (audit_claims id doc (map claim_to_dict cs) detected).warnings
audit_claims-All id doc cs detected h =
    rw
      (
        audit_claims-warnings id doc (map claim_to_dict cs) detected,
        concat_map-map (warnings_of doc) claim_to_dict cs,
      )
      (concat_map-weaken (IsGoverned doc) IsTrendWarning _ cs (warnings_of-All doc) h)

-- An audit of a report whose claims summarization parsed for the same document returns a result; its
-- warnings are all of R7 (R3 and R5 never speak), and it passes exactly if no advice was detected and
-- every claim is clean.
pub run_audit-parsed :
    (reports : List ReportDocument) (doc : String) (id : Option String) (report : ReportDocument)
    (consistent : Bool) (ids : ℕ → String) (items : List RawClaim)
    → find_report doc id reports ≡ some report
    → report.claims ≡ parse_claims doc consistent ids items
    → (r : AuditReport) × (run_audit reports doc id ≡ ok r)
      × All (λ v. v.rule ≡ r7) r.warnings
      × ((r.passed ≡ true) ↔ (
          (report.investment_advice_detected ≡ false)
          × All IsClean (map claim_to_dict report.claims)))
unfolding run_audit audit_report
run_audit-parsed reports doc id report consistent ids items found parsed = (
  audit_report (
      audit_claims report.report_id doc (map claim_to_dict report.claims)
        report.investment_advice_detected),
  rw found refl,
  audit_claims-All report.report_id doc report.claims report.investment_advice_detected (
      subst (All (IsGoverned doc)) (sym parsed) (parse_claims-IsGoverned doc consistent ids items)),
  audit_claims-passed_iff report.report_id doc (map claim_to_dict report.claims)
      report.investment_advice_detected,
)

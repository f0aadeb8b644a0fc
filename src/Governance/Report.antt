-- ===== src/Governance/Report.antt =====
-- When an audit passes, and what its two lists hold.
use financial_pdf_reader.Base.{String, ◌≡◌, refl, ◌↔◌, ◌⊎◌}
use financial_pdf_reader.Base.{Bool, true, false, not, ◌&&◌}
use financial_pdf_reader.Base.{List, [], ◌∷◌, ◌++◌, arith}
use financial_pdf_reader.Base.{is_empty, any, opt_list}
use financial_pdf_reader.Base.{All, All-append, nat_eq, string_eq, text_eq}
use financial_pdf_reader.Text.{Text}
use financial_pdf_reader.Text.{any_in_lower}
use financial_pdf_reader.Models.{ClaimLevel, is_derived_metric}
use financial_pdf_reader.Governance.{
  r1, r2, r3, r4, r5, r7, error, warning, GovernanceViolation, EvidenceDict, ClaimDict, passed,
  advice_phrases, check_r1, has_quote, check_r2, check_r3, check_r4_report, found_phrases,
  check_r4_claim, check_r5, check_r7_claim, audit_claims,
}
use financial_pdf_reader.Base.{concat_map, concat_map-All}
use financial_pdf_reader.Governance.Claims.{
  id_of, text_of, level_of, evidence_of, errors_of, warnings_of, audit_claims-violations,
  audit_claims-warnings,
}

-- What R1, R2 and R4 ask of a claim, stated of its parts.
pub record IsClean (c : ClaimDict) : Type 0 where
  pub sourced : is_empty (evidence_of c) ≡ false
  pub quoted : is_derived_metric (level_of c) ≡ true → any has_quote (evidence_of c) ≡ true
  pub impartial : any_in_lower advice_phrases (text_of c) ≡ false

found_phrases-is_empty :
    (ps : List Text) (t : Text) → is_empty (found_phrases ps t) ≡ not (any_in_lower ps t)
unfolding found_phrases
found_phrases-is_empty [] t = refl
found_phrases-is_empty (p ∷ ps) t = ground (arith, found_phrases-is_empty ps t)

is_empty-append {ℓ} :
    {A : Type ℓ} (xs ys : List A) → is_empty (xs ++ ys) ≡ (is_empty xs && is_empty ys)
is_empty-append [] ys = refl
is_empty-append (x ∷ xs) ys = refl

errors_of-is_empty_iff : (c : ClaimDict) → (is_empty (errors_of c) ≡ true) ↔ IsClean c
unfolding check_r1 check_r2 check_r4_claim
errors_of-is_empty_iff c = ground (arith, found_phrases-is_empty advice_phrases (text_of c))

concat_map-is_empty_iff :
    (cs : List ClaimDict) → (is_empty (concat_map errors_of cs) ≡ true) ↔ All IsClean cs
concat_map-is_empty_iff [] = (λ _. tt, λ _. refl)
concat_map-is_empty_iff (c ∷ cs) =
    rw (is_empty-append (errors_of c) (concat_map errors_of cs))
      (ground (arith, errors_of-is_empty_iff c, concat_map-is_empty_iff cs))

check_r4_report-is_empty : (b : Bool) → is_empty (opt_list (check_r4_report b)) ≡ not b
unfolding check_r4_report
check_r4_report-is_empty b = ground arith

-- An audit passes exactly if the report has no advice flag, and every claim has evidence, has a
-- non-blank quote if it is a derived metric, and holds no advice phrase. R3, R5 and R7 never
-- stop it.
pub audit_claims-passed_iff :
    (report doc : String) (cs : List ClaimDict) (detected : Bool)
    → (passed (audit_claims report doc cs detected) ≡ true) ↔ ((detected ≡ false) × All IsClean cs)
audit_claims-passed_iff report doc cs detected =
    rw
      (
        audit_claims-violations report doc cs detected,
        is_empty-append (opt_list (check_r4_report detected)) (concat_map errors_of cs),
      )
      (ground (arith, check_r4_report-is_empty detected, concat_map-is_empty_iff cs))

-- The rules that stop a report, and how they are recorded.
abbrev pub IsBlocking : GovernanceViolation → Type 0
IsBlocking v =
    ((v.rule ≡ r1) ⊎ (v.rule ≡ r2) ⊎ (v.rule ≡ r4)) × (v.severity ≡ error) × (v.auto_fixed ≡ false)

-- The rules that only warn: R3, always as a mended error, and R5 and R7.
abbrev pub IsAdvisory : GovernanceViolation → Type 0
IsAdvisory v =
    ((v.rule ≡ r3) × (v.auto_fixed ≡ true) × (v.severity ≡ error))
    ⊎ (((v.rule ≡ r5) ⊎ (v.rule ≡ r7)) × (v.auto_fixed ≡ false) × (v.severity ≡ warning))

errors_of-All : (c : ClaimDict) → All IsBlocking (errors_of c)
unfolding check_r1 check_r2 check_r4_claim
errors_of-All c = ground arith

check_r5-All :
    (id doc : String) (ev : List EvidenceDict) → All IsAdvisory (opt_list (check_r5 id doc ev))
unfolding check_r5
check_r5-All id doc [] = tt
check_r5-All id doc (e ∷ ev) = ground (arith, check_r5-All id doc ev)

check_r3-All :
    (id : String) (l : ClaimLevel) (ev : List EvidenceDict)
    → All IsAdvisory (opt_list (check_r3 id l ev))
unfolding check_r3
check_r3-All id l ev = ground arith

check_r7_claim-All : (id : String) (t : Text) → All IsAdvisory (opt_list (check_r7_claim id t))
unfolding check_r7_claim
check_r7_claim-All id t = ground arith

warnings_of-All : (doc : String) (c : ClaimDict) → All IsAdvisory (warnings_of doc c)
warnings_of-All doc c =
    All-append IsAdvisory (opt_list (check_r3 (id_of c) (level_of c) (evidence_of c))) _
      (check_r3-All (id_of c) (level_of c) (evidence_of c))
      (All-append IsAdvisory (opt_list (check_r5 (id_of c) doc (evidence_of c))) _
        (check_r5-All (id_of c) doc (evidence_of c)) (check_r7_claim-All (id_of c) (text_of c)))

check_r4_report-All : (b : Bool) → All IsBlocking (opt_list (check_r4_report b))
unfolding check_r4_report
check_r4_report-All b = ground arith

-- The violations of an audit are errors of R1, R2 and R4, and its warnings are mended errors of
-- R3 and warnings of R5 and R7; no finding is in the wrong list.
pub audit_claims-partition :
    (report doc : String) (cs : List ClaimDict) (detected : Bool)
    → All IsBlocking (audit_claims report doc cs detected).violations
      × All IsAdvisory (audit_claims report doc cs detected).warnings
audit_claims-partition report doc cs detected = (
  rw (audit_claims-violations report doc cs detected) (
      All-append IsBlocking (opt_list (check_r4_report detected)) (concat_map errors_of cs)
        (check_r4_report-All detected) (concat_map-All IsBlocking errors_of cs errors_of-All)),
  rw (audit_claims-warnings report doc cs detected)
      (concat_map-All IsAdvisory (warnings_of doc) cs (warnings_of-All doc)),
)

-- ===== src/Summary/Report/Laws.antt =====
-- What a summary promises: its contract, its evidence status and its guard on the period.
use financial_pdf_reader.Base.{ℕ, suc}
use financial_pdf_reader.Base.{String, ◌≡◌, refl, ap, ◌↔◌}
use financial_pdf_reader.Base.{Bool, true, false, not, ◌||◌}
use financial_pdf_reader.Base.{List, [], ◌∷◌, arith, eqb}
use financial_pdf_reader.Base.{or_default, length}
use financial_pdf_reader.Base.{is_empty, any, all, select, count_if}
use financial_pdf_reader.Base.{All, nat_eq, string_eq, text_eq}
use financial_pdf_reader.Text.{Text}
use financial_pdf_reader.Models.{AiClaim, is_insufficient}
use financial_pdf_reader.Base.{count_if-le}
use financial_pdf_reader.Summary.Claims.{RawClaim, parse_claims}
use financial_pdf_reader.Summary.Claims.Laws.{IsGoverned, parse_claims-IsGoverned}
use financial_pdf_reader.Summary.Claims.Contamination.{parse_claim-consistent}
use financial_pdf_reader.Summary.Dashboard.Contract.{validate-build_dashboard_payload}
use financial_pdf_reader.Summary.Report.{
  complete, insufficient, evidence_status_of, temporal_of, requested_missing, RawAnswer,
  summarize_answer, report_of_claims,
}

module _ {ℓ} {A : Type ℓ} (p : A → Bool) where
  count_if-all : (xs : List A) → eqb (count_if p xs) (length xs) ≡ all p xs
  count_if-all [] = refl
  count_if-all (x ∷ xs) = ground (arith, count_if-all xs, count_if-le p xs)

  count_if-any : (xs : List A) → eqb (count_if p xs) 0 ≡ not (any p xs)
  count_if-any [] = refl
  count_if-any (x ∷ xs) = ground (arith, count_if-any xs)

-- A claim that says that the evidence does not suffice.
abbrev pub is_gap : AiClaim → Bool
is_gap c = is_insufficient c.claim_level

abbrev pub clean_of : List AiClaim → List AiClaim
clean_of claims = select (λ c. not c.contaminated) claims

any-all : (cs : List AiClaim) → is_empty cs ≡ false → all is_gap cs ≡ true → any is_gap cs ≡ true
any-all [] e h = cc
any-all (c ∷ cs) e h = ground arith

evidence_status-insufficient_iff :
    (cs : List AiClaim) → (evidence_status_of cs ≡ insufficient) ↔ (all is_gap cs ≡ true)
unfolding evidence_status_of
evidence_status-insufficient_iff [] = ground arith
evidence_status-insufficient_iff (c ∷ cs) = ground (
  arith,
  count_if-all is_gap (c ∷ cs),
  count_if-any is_gap (c ∷ cs),
  count_if-le is_gap (c ∷ cs),
  any-all (c ∷ cs) refl,
)

evidence_status-complete_iff :
    (cs : List AiClaim)
    → (evidence_status_of cs ≡ complete) ↔ ((is_empty cs ≡ false) × (any is_gap cs ≡ false))
unfolding evidence_status_of
evidence_status-complete_iff [] = ground arith
evidence_status-complete_iff (c ∷ cs) = ground (arith, count_if-any is_gap (c ∷ cs))

-- The summary's report has a valid dashboard and governed claims. Its evidence is insufficient
-- exactly if every claim that is not contaminated is a gap, and complete exactly if there is such a
-- claim and none of them is a gap.
pub summarize_answer-evidence :
    (ratio percent : ℕ → ℕ → ℕ) (doc : String) (period : Text) (ids : ℕ → String) (raw_text : Text)
    (answer : RawAnswer)
    → let r = summarize_answer ratio percent doc period ids raw_text answer in
      (r.dashboard_contract_valid ≡ true)
      × All (IsGoverned doc) r.claims
      × ((r.evidence_status ≡ insufficient) ↔ (all is_gap (clean_of r.claims) ≡ true))
      × ((r.evidence_status ≡ complete)
          ↔ ((is_empty (clean_of r.claims) ≡ false) × (any is_gap (clean_of r.claims) ≡ false)))
unfolding summarize_answer report_of_claims
summarize_answer-evidence ratio percent doc period ids raw_text answer =
    let consistent = (temporal_of period answer.temporal_validation).consistent in
    let cs = parse_claims doc consistent ids answer.claims in
    (
      ap (λ errors. eqb (length errors) 0)
          (validate-build_dashboard_payload percent (clean_of cs) cs consistent _ _ _),
      parse_claims-IsGoverned doc consistent ids answer.claims,
      evidence_status-insufficient_iff (clean_of cs),
      evidence_status-complete_iff (clean_of cs),
    )

parse_claims-contaminated :
    (doc : String) (ids : ℕ → String) (items : List RawClaim)
    → any (λ c. c.contaminated) (parse_claims doc true ids items)
      ≡ any (λ item. or_default item.contaminated false) items
unfolding parse_claims
parse_claims-contaminated doc ids [] = refl
parse_claims-contaminated doc ids (item ∷ items) = rw (parse_claim-consistent doc (ids 0) item) (
    ap (λ b. or_default item.contaminated false || b)
      (parse_claims-contaminated doc (λ n. ids (suc n)) items))

-- If no period was asked for, the report is taken for consistent, whatever the model says of the
-- periods, and a claim is contaminated only if the model marks one.
pub summarize_answer-unrequested :
    (ratio percent : ℕ → ℕ → ℕ) (doc : String) (period : Text) (ids : ℕ → String) (raw_text : Text)
    (answer : RawAnswer)
    → requested_missing (or_default answer.temporal_validation.requested_period period) ≡ true
    → let r = summarize_answer ratio percent doc period ids raw_text answer in
      (r.temporal.consistent ≡ true)
      × (any (λ c. c.contaminated) r.claims
          ≡ any (λ item. or_default item.contaminated false) answer.claims)
unfolding summarize_answer report_of_claims temporal_of
summarize_answer-unrequested ratio percent doc period ids raw_text answer missing =
    rw missing (refl, parse_claims-contaminated doc ids answer.claims)

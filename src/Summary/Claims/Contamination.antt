-- ===== src/Summary/Claims/Contamination.antt =====
-- Which claims are set aside when the periods of the report and the request do not agree.
use financial_pdf_reader.Base.{String, ◌≡◌, refl, ◌↔◌}
use financial_pdf_reader.Base.{Bool, true, false, Option}
use financial_pdf_reader.Base.{arith}
use financial_pdf_reader.Base.{or_default}
use financial_pdf_reader.Base.{nat_eq, string_eq, text_eq}
use financial_pdf_reader.Models.{
  ClaimLevel, observed_fact, derived_metric, interpretation, hypothesis, insufficient_evidence,
  SourceType, is_inferred, is_narrative,
}
use financial_pdf_reader.Summary.Claims.{
  RawClaim, first_level, source_of, narrative_level, is_contaminated, parse_claim,
}

-- A narrative claim that the model calls an observed fact, with evidence: it becomes an
-- interpretation only after the contamination test.
abbrev pub IsLateInterpretation : RawClaim → Type 0
IsLateInterpretation item =
    (is_narrative (source_of item) ≡ true) × (first_level item ≡ observed_fact)

escapes_iff :
    (s : SourceType) (l : ClaimLevel) (given : Option Bool)
    → ((is_inferred (narrative_level s l) ≡ true) × (is_contaminated false l given ≡ false))
      ↔ (((is_narrative s ≡ true) × (l ≡ observed_fact)) × (or_default given false ≡ false))
unfolding narrative_level is_contaminated
escapes_iff s observed_fact given = ground arith
escapes_iff s derived_metric given = ground arith
escapes_iff s interpretation given = ground arith
escapes_iff s hypothesis given = ground arith
escapes_iff s insufficient_evidence given = ground arith

-- With inconsistent periods, a parsed claim is inferred (a derived metric, an interpretation or a
-- hypothesis) and not contaminated exactly if it is a late interpretation that the model did not
-- mark: every other inferred claim is set aside.
pub parse_claim-escapes_iff :
    (doc fresh : String) (item : RawClaim)
    → let c = parse_claim doc false fresh item in
      ((is_inferred c.claim_level ≡ true) × (c.contaminated ≡ false))
      ↔ (IsLateInterpretation item × (or_default item.contaminated false ≡ false))
unfolding parse_claim
parse_claim-escapes_iff doc fresh item =
    escapes_iff (source_of item) (first_level item) item.contaminated

-- With consistent periods a claim is contaminated only if the model says so.
pub parse_claim-consistent :
    (doc fresh : String) (item : RawClaim)
    → (parse_claim doc true fresh item).contaminated ≡ or_default item.contaminated false
unfolding parse_claim
parse_claim-consistent doc fresh item = refl

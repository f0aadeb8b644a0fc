-- ===== src/Summary/Claims/Laws.antt =====
-- The governance rules that every parsed claim satisfies, whatever the model answered.
use financial_pdf_reader.Base.{ℕ, suc}
use financial_pdf_reader.Base.{String, ◌≡◌, refl, sym, ◌∙◌, ◌≢◌}
use financial_pdf_reader.Base.{Bool, true, not}
use financial_pdf_reader.Base.{List, [], ◌∷◌, map, arith, if◌then◌else◌}
use financial_pdf_reader.Base.{is_empty, select}
use financial_pdf_reader.Base.{All, nat_eq, string_eq, text_eq}
use financial_pdf_reader.Text.{is_in, any_in}
use financial_pdf_reader.Models.{
  ClaimLevel, observed_fact, interpretation, insufficient_evidence, SourceType, financial_evidence,
  operational_evidence, strategic_narrative, management_expectation, Confidence, high, AiClaim,
  is_narrative,
}
use financial_pdf_reader.Summary.Claims.{
  RawEvidence, RawClaim, valid_or, parse_evidence, raw_evidence, evidenced_level, first_level,
  source_of, narrative_level, capped_confidence, attribution_prefix_of, parse_claim, parse_claims,
}
use financial_pdf_reader.Prompts.{rhetorical_risk_phrases, forward_looking_indicator_phrases}
use financial_pdf_reader.Models.Parse.{valid_claim_level}

pub record IsGoverned (doc : String) (c : AiClaim) : Type 0 where
  pub grounded : is_empty c.evidence ≡ true → c.claim_level ≡ insufficient_evidence
  pub not_fact : is_narrative c.source_type ≡ true → c.claim_level ≢ observed_fact
  pub not_certain : c.source_type ≡ management_expectation → c.confidence ≢ high
  pub reviewed : c.forward_looking ≡ true → c.requires_human_review ≡ true
  pub forward :
      is_narrative c.source_type ≡ true
      → any_in forward_looking_indicator_phrases c.claim ≡ true
      → c.forward_looking ≡ true
  pub rhetorical : c.rhetorical_risk_terms ≡ (
      if is_narrative c.source_type
      then select (λ p. is_in p c.claim) rhetorical_risk_phrases
      else [])
  pub flagged : c.rhetorical_risk_flag ≡ not (is_empty c.rhetorical_risk_terms)
  pub attributed : is_empty c.attribution_prefix ≡ not (is_narrative c.source_type)
  pub same_document : All (λ e. e.document_id ≡ doc) c.evidence

map-is_empty {ℓ κ} :
    {A : Type ℓ} {B : Type κ} (f : A → B) (xs : List A) → is_empty (map f xs) ≡ is_empty xs
map-is_empty f [] = refl
map-is_empty f (x ∷ xs) = refl

parse_evidence-All :
    (doc : String) (evs : List RawEvidence)
    → All (λ e. e.document_id ≡ doc) (map (parse_evidence doc) evs)
unfolding parse_evidence
parse_evidence-All doc [] = tt
parse_evidence-All doc (ev ∷ evs) = (refl, parse_evidence-All doc evs)

grounded_level :
    (evs : List RawEvidence) (s : SourceType) (l : ClaimLevel)
    → is_empty evs ≡ true
    → narrative_level s (evidenced_level evs l) ≡ insufficient_evidence
unfolding narrative_level evidenced_level
grounded_level evs s l h = ground arith

attributed_source : (s : SourceType) → is_empty (attribution_prefix_of s) ≡ not (is_narrative s)
unfolding attribution_prefix_of
attributed_source financial_evidence = refl
attributed_source operational_evidence = refl
attributed_source strategic_narrative = refl
attributed_source management_expectation = refl

narrative_level-ne :
    (s : SourceType) (l : ClaimLevel) → is_narrative s ≡ true → narrative_level s l ≢ observed_fact
unfolding narrative_level
narrative_level-ne s l h = ground arith

capped_confidence-ne :
    (s : SourceType) (c : Confidence) → s ≡ management_expectation → capped_confidence s c ≢ high
unfolding capped_confidence
capped_confidence-ne s c h = ground arith

-- A parsed claim is governed: without evidence its level is `insufficient_evidence`; a narrative
-- source is no observed fact and an expectation not of high confidence; a forward-looking claim
-- needs review, and indicator words make a narrative claim forward-looking; the rhetorical terms
-- are exactly the phrases found in narrative claims and the flag says whether there are any; the
-- attribution prefix is there exactly on narrative sources; all evidence cites the document.
pub parse_claim-IsGoverned :
    (doc : String) (consistent : Bool) (fresh : String) (item : RawClaim)
    → IsGoverned doc (parse_claim doc consistent fresh item)
parse_claim-IsGoverned doc consistent fresh item =
    unfold parse_claim in
    record {
      grounded = λ h.
          grounded_level (raw_evidence item) (source_of item)
            (valid_or valid_claim_level interpretation item.claim_level)
            (sym (map-is_empty (parse_evidence doc) (raw_evidence item)) ∙ h);
      not_fact = λ h. narrative_level-ne (source_of item) (first_level item) h;
      not_certain = λ h. capped_confidence-ne (source_of item) _ h;
      reviewed = λ h. ground arith;
      forward = λ n h. ground arith;
      rhetorical = refl;
      flagged = refl;
      attributed = attributed_source (source_of item);
      same_document = parse_evidence-All doc (raw_evidence item);
    }

pub parse_claims-IsGoverned :
    (doc : String) (consistent : Bool) (ids : ℕ → String) (items : List RawClaim)
    → All (IsGoverned doc) (parse_claims doc consistent ids items)
unfolding parse_claims
parse_claims-IsGoverned doc consistent ids [] = tt
parse_claims-IsGoverned doc consistent ids (item ∷ items) = (
  parse_claim-IsGoverned doc consistent (ids 0) item,
  parse_claims-IsGoverned doc consistent (λ n. ids (suc n)) items,
)

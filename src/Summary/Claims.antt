-- ===== src/Summary/Claims.antt =====
-- `_parse_claims` of services/summarization: a claim of the model's answer becomes an `AIClaim`.
--
-- An item of the answer is a record of optional keys. A page is the text that `str` gives for the
-- value. JSON `null` and values of another JSON type are left out.
pub mod Laws
pub mod Contamination
use financial_pdf_reader.Base.{ℕ, suc}
use financial_pdf_reader.Base.{String}
use financial_pdf_reader.Base.{Bool, true, false, not, ◌&&◌, ◌||◌, Option, none, some}
use financial_pdf_reader.Base.{List, [], ◌∷◌, map, if◌then◌else◌}
use financial_pdf_reader.Base.{or_default}
use financial_pdf_reader.Base.{is_empty, select}
use financial_pdf_reader.Base.{nat_eq, string_eq, text_eq}
use financial_pdf_reader.Text.{Text, codes, is_in, any_in}
use financial_pdf_reader.Models.{
  financial_observation, ClaimLevel, interpretation, insufficient_evidence, tier_b, key_financials,
  SourceType, financial_evidence, strategic_narrative, management_expectation, Confidence, medium,
  ClaimEvidence, AiClaim, is_observed_fact, is_insufficient, is_inferred, is_narrative,
  is_expectation, is_high,
}
use financial_pdf_reader.Prompts.{rhetorical_risk_phrases, forward_looking_indicator_phrases}
use financial_pdf_reader.Models.Parse.{
  valid_claim_type, valid_claim_level, valid_materiality, valid_section_key, valid_source_type,
  valid_confidence,
}

-- One entry of an item's `evidence`.
pub record RawEvidence : Type 0 where
  pub page : Option Text
  pub section : Option Text
  pub quoted_text : Option Text

-- One entry of the answer's `claims`.
pub record RawClaim : Type 0 where
  pub claim_id : Option String
  pub claim : Option Text
  pub claim_type : Option String
  pub claim_level : Option String
  pub materiality : Option String
  pub section_key : Option String
  pub recurring : Option Bool
  pub contaminated : Option Bool
  pub source_type : Option String
  pub forward_looking : Option Bool
  pub evidence : Option (List RawEvidence)
  pub confidence : Option String
  pub requires_human_review : Option Bool

-- `x = item.get(key, default)`, and `default` again if the string is not valid.
abbrev pub valid_or {ℓ} : {A : Type ℓ} → (String → Option A) → A → Option String → A
valid_or valid d none = d
valid_or valid d (some s) = or_default (valid s) d

unfoldable pub parse_evidence : String → RawEvidence → ClaimEvidence
parse_evidence doc ev = record {
  document_id = doc;
  page = or_default ev.page (codes "unknown");
  section = or_default ev.section (codes "unknown");
  quoted_text = or_default ev.quoted_text [];
}

abbrev pub raw_evidence : RawClaim → List RawEvidence
raw_evidence item = or_default item.evidence []

abbrev pub raw_claim : RawClaim → Text
raw_claim item = or_default item.claim []

-- The level of a claim with no evidence is forced down.
unfoldable pub evidenced_level : List RawEvidence → ClaimLevel → ClaimLevel
evidenced_level evidence level =
    if is_empty evidence && not (is_insufficient level) then insufficient_evidence else level

-- The level that the contamination test sees.
abbrev pub first_level : RawClaim → ClaimLevel
first_level item =
    evidenced_level (raw_evidence item) (valid_or valid_claim_level interpretation item.claim_level)

abbrev pub source_of : RawClaim → SourceType
source_of item = valid_or valid_source_type financial_evidence item.source_type

-- A narrative source is never an observed fact.
unfoldable pub narrative_level : SourceType → ClaimLevel → ClaimLevel
narrative_level source level =
    if is_narrative source && is_observed_fact level then interpretation else level

unfoldable pub is_contaminated : Bool → ClaimLevel → Option Bool → Bool
is_contaminated consistent level given =
    if not consistent && is_inferred level then true else or_default given false

-- The confidence of an expectation is at most medium.
unfoldable pub capped_confidence : SourceType → Confidence → Confidence
capped_confidence source confidence =
    if is_expectation source && is_high confidence then medium else confidence

-- `forward_looking` after the guard that looks for indicator words in narrative claims.
unfoldable pub is_forward_looking : SourceType → Text → Bool → Bool
is_forward_looking source claim given =
    given || (is_narrative source && any_in forward_looking_indicator_phrases claim)

unfoldable pub rhetorical_terms : SourceType → Text → List Text
rhetorical_terms source claim =
    if is_narrative source then select (λ p. is_in p claim) rhetorical_risk_phrases else []

unfoldable pub attribution_prefix_of : SourceType → Text
attribution_prefix_of strategic_narrative = codes "公司宣稱："
attribution_prefix_of management_expectation = codes "管理層表示："
attribution_prefix_of _ = []

-- One round of the loop; `fresh` is what `uuid4` gives.
unfoldable pub parse_claim : String → Bool → String → RawClaim → AiClaim
unfolding parse_evidence evidenced_level narrative_level is_contaminated capped_confidence
    is_forward_looking rhetorical_terms attribution_prefix_of
parse_claim doc consistent fresh item =
    let source = source_of item in
    let text = raw_claim item in
    let forward = is_forward_looking source text (or_default item.forward_looking false) in
    let terms = rhetorical_terms source text in
    record {
      claim_id = or_default item.claim_id fresh;
      claim = text;
      claim_type = valid_or valid_claim_type financial_observation item.claim_type;
      claim_level = narrative_level source (first_level item);
      materiality = valid_or valid_materiality tier_b item.materiality;
      section_key = valid_or valid_section_key key_financials item.section_key;
      recurring = or_default item.recurring true;
      contaminated = is_contaminated consistent (first_level item) item.contaminated;
      source_type = source;
      forward_looking = forward;
      rhetorical_risk_flag = not (is_empty terms);
      rhetorical_risk_terms = terms;
      attribution_prefix = attribution_prefix_of source;
      evidence = map (parse_evidence doc) (raw_evidence item);
      confidence = capped_confidence source (valid_or valid_confidence medium item.confidence);
      requires_human_review = forward || or_default item.requires_human_review false;
    }

-- The loop; `ids` is the supply of fresh identifiers.
unfoldable pub parse_claims : String → Bool → (ℕ → String) → List RawClaim → List AiClaim
unfolding parse_claim
parse_claims doc consistent ids [] = []
parse_claims doc consistent ids (item ∷ items) =
    parse_claim doc consistent (ids 0) item ∷ parse_claims doc consistent (λ n. ids (suc n)) items

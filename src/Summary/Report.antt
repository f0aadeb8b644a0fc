-- ===== src/Summary/Report.antt =====
-- The report of services/summarization: `_check_investment_advice`, `_check_completeness`, and the
-- part of `generate_summary` from the parsed answer of the language model to the stored report.
--
-- `round` on quotients is two parameters: `ratio n d` is `round(n / d, 2)` in hundredths, and
-- `percent n d` is `round(n / d * 100, 1)` in tenths. The calls of the language model and of the
-- database come before and after this part.
pub mod Laws
use financial_pdf_reader.Base.{ℕ, zero, suc, ◌+◌, ◌/◌}
use financial_pdf_reader.Base.{String}
use financial_pdf_reader.Base.{Bool, true, not, ◌&&◌, ◌||◌, Option}
use financial_pdf_reader.Base.{List, [], ◌∷◌, ◌++◌, map, ltb, eqb, if◌then◌else◌}
use financial_pdf_reader.Base.{or_default, length, take}
use financial_pdf_reader.Base.{is_empty, any, select, count_if, sum_of}
use financial_pdf_reader.Base.{nat_eq, string_eq, text_eq, contains}
use financial_pdf_reader.Text.{Text, texts, lower, any_in}
use financial_pdf_reader.Text.{any_in_lower, is_space}
use financial_pdf_reader.Text.Strip.{strip_by}
use financial_pdf_reader.Models.{
  AiClaim, is_derived_metric, is_insufficient, is_narrative, is_liquidity, is_adjustments,
  is_key_financials,
}
use financial_pdf_reader.Prompts.{investment_advice_guard_phrases}
use financial_pdf_reader.Contract.{ContractError, validate_dashboard_contract_v1}
use financial_pdf_reader.Summary.Claims.{RawClaim, parse_claims}
use financial_pdf_reader.Summary.Entries.{Dashboard}
use financial_pdf_reader.Summary.Dashboard.{build_dashboard_payload}
use financial_pdf_reader.Summary.Dashboard.Contract.{payload_dict}

-- `_check_investment_advice`
unfoldable pub check_investment_advice : Text → Bool
check_investment_advice text = any_in investment_advice_guard_phrases (lower text)

-- `_OC1_TRIGGER_KEYWORDS`
abbrev pub oc1_trigger_keywords : List Text
oc1_trigger_keywords = texts ("迴轉利益" ∷ "跌價損失" ∷ "存貨跌價" ∷ "減損損失" ∷ "不動產減損" ∷ "廠房減損" ∷ [])

-- `_OC2_CASH_KEYWORDS`
abbrev pub oc2_cash_keywords : List Text
oc2_cash_keywords = texts ("現金" ∷ "約當現金" ∷ "cash" ∷ "cash balance" ∷ "cash equivalent" ∷ [])

-- `_OC2_DEBT_KEYWORDS`
abbrev pub oc2_debt_keywords : List Text
oc2_debt_keywords = texts (
    "短期借款" ∷ "長期借款" ∷ "一年內到期長期負債" ∷ "借款" ∷ "流動負債" ∷ "公司債" ∷ "應付公司債" ∷ "可轉債" ∷ "可轉換公司債" ∷ "商業本票"
    ∷ "ECB" ∷ "convertible bond" ∷ "corporate bond" ∷ "應付股利" ∷ [])

-- `_OC1_ADJUSTMENT_KEYWORDS`
abbrev pub oc1_adjustment_keywords : List Text
oc1_adjustment_keywords = texts ("調整後毛利率" ∷ "排除此項目" ∷ [])

-- `_OC2_SAFETY_KEYWORDS`
abbrev pub oc2_safety_keywords : List Text
oc2_safety_keywords = texts ("安全墊" ∷ "現金安全墊" ∷ "liquidity_safety_margin" ∷ [])

-- A warning of `_check_completeness`, with the values that the message shows.
pub data CompletenessWarning : Type 0 where
  oc1 : List Text → CompletenessWarning
  oc2 : CompletenessWarning

unfoldable pub is_oc1_trigger : AiClaim → Bool
is_oc1_trigger c =
    not c.recurring
    && (is_adjustments c.section_key || is_key_financials c.section_key)
    && any_in oc1_trigger_keywords c.claim

unfoldable pub is_oc1_adjustment : AiClaim → Bool
is_oc1_adjustment c =
    is_derived_metric c.claim_level
    && is_adjustments c.section_key
    && any_in oc1_adjustment_keywords c.claim

-- `c.section_key == "liquidity" and _contains_any(c.claim, keywords)`
unfoldable pub speaks_of_liquidity : List Text → AiClaim → Bool
speaks_of_liquidity keywords c = is_liquidity c.section_key && any_in_lower keywords c.claim

unfoldable pub is_oc2_safety : AiClaim → Bool
is_oc2_safety c = is_derived_metric c.claim_level && speaks_of_liquidity oc2_safety_keywords c

unfoldable pub oc1_warnings : List AiClaim → List CompletenessWarning
oc1_warnings claims =
    let triggers = select is_oc1_trigger claims in
    if not (is_empty triggers) && not (any is_oc1_adjustment claims)
    then oc1 (map (λ c. take 30 c.claim) (take 2 triggers)) ∷ []
    else []

unfoldable pub oc2_warnings : List AiClaim → List CompletenessWarning
oc2_warnings claims =
    if any (speaks_of_liquidity oc2_cash_keywords) claims
      && any (speaks_of_liquidity oc2_debt_keywords) claims
      && not (any is_oc2_safety claims)
    then oc2 ∷ []
    else []

-- `_check_completeness`
unfoldable pub check_completeness : List AiClaim → List CompletenessWarning
check_completeness claims = oc1_warnings claims ++ oc2_warnings claims

-- The `temporal_validation` dict of the answer.
pub record TemporalValidation : Type 0 where
  pub is_consistent : Option Bool
  pub mismatch_note : Option Text
  pub document_period : Option Text
  pub requested_period : Option Text

-- What the guard on the requested period leaves.
pub record Temporal : Type 0 where
  pub consistent : Bool
  pub note : Text
  pub document_period : Text
  pub requested_period : Text

-- `_unknown_tokens`
abbrev pub unknown_tokens : List Text
unknown_tokens = texts ("" ∷ "unknown" ∷ "UNKNOWN" ∷ "n/a" ∷ "N/A" ∷ "null" ∷ "None" ∷ [])

abbrev pub requested_missing : Text → Bool
requested_missing requested = contains unknown_tokens (strip_by is_space requested)

unfoldable pub temporal_of : Text → TemporalValidation → Temporal
temporal_of period tv =
    let document = or_default tv.document_period period in
    let requested = or_default tv.requested_period period in
    if requested_missing requested
    then record {
      consistent = true;
      note = [];
      document_period = document;
      requested_period = document;
    }
    else record {
      consistent = or_default tv.is_consistent true;
      note = or_default tv.mismatch_note [];
      document_period = document;
      requested_period = requested;
    }

-- `AIReport.evidence_status`
pub data EvidenceStatus : Type 0 where
  complete partial insufficient : EvidenceStatus

unfoldable pub evidence_status_of : List AiClaim → EvidenceStatus
evidence_status_of clean =
    let gaps = count_if (λ c. is_insufficient c.claim_level) clean in
    if eqb (length clean) 0
    then insufficient
    else if eqb gaps 0
    then complete
    else if ltb gaps (length clean)
    then partial
    else insufficient

-- What `generate_summary` stores of the claims.
pub record SummaryReport : Type 0 where
  pub temporal : Temporal
  pub executive_summary : Text
  pub claims : List AiClaim
  pub evidence_status : EvidenceStatus
  pub narrative_density_score : ℕ
  pub narrative_density_weighted_score : ℕ
  pub narrative_flag : Bool
  pub investment_advice_detected : Bool
  pub completeness_warnings : List CompletenessWarning
  pub dashboard : Dashboard
  pub dashboard_contract_errors : List ContractError
  pub dashboard_contract_valid : Bool

-- The JSON object of the answer.
pub record RawAnswer : Type 0 where
  pub temporal_validation : TemporalValidation
  pub executive_summary : Option Text
  pub claims : List RawClaim

module _ (ratio percent : ℕ → ℕ → ℕ) where
  -- `round(part / whole, 2) if whole else 0.0`
  abbrev pub density : ℕ → ℕ → ℕ
  density part zero = 0
  density part (suc whole) = ratio part (suc whole)

  unfoldable pub density_score : List AiClaim → ℕ
  density_score clean =
      let non_gap = select (λ c. not (is_insufficient c.claim_level)) clean in
      density (count_if (λ c. is_narrative c.source_type) non_gap) (length non_gap)

  unfoldable pub density_weighted_score : List AiClaim → ℕ
  density_weighted_score clean =
      let non_gap = select (λ c. not (is_insufficient c.claim_level)) clean in
      density (sum_of (λ c. length c.claim) (select (λ c. is_narrative c.source_type) non_gap))
        (sum_of (λ c. length c.claim) non_gap)

  -- The report of the parsed claims.
  unfoldable pub report_of_claims : Temporal → Text → Text → List AiClaim → SummaryReport
  report_of_claims temporal executive raw_text claims =
      let clean = select (λ c. not c.contaminated) claims in
      let score = density_score clean in
      let weighted = density_weighted_score clean in
      let flag = ltb 60 score || ltb 60 weighted in
      let dashboard =
        build_dashboard_payload percent clean claims temporal.consistent flag score weighted in
      let errors = validate_dashboard_contract_v1 (payload_dict dashboard) in
      record {
        temporal = temporal;
        executive_summary = executive;
        claims = claims;
        evidence_status = evidence_status_of clean;
        narrative_density_score = score;
        narrative_density_weighted_score = weighted;
        narrative_flag = flag;
        investment_advice_detected = check_investment_advice raw_text;
        completeness_warnings = check_completeness claims;
        dashboard = dashboard;
        dashboard_contract_errors = errors;
        dashboard_contract_valid = eqb (length errors) 0;
      }

  -- `generate_summary` from the parsed answer on; `ids` is what `uuid4` gives for the claims.
  unfoldable pub summarize_answer : String → Text → (ℕ → String) → Text → RawAnswer → SummaryReport
  summarize_answer doc period ids raw_text answer =
      let temporal = temporal_of period answer.temporal_validation in
      report_of_claims temporal (or_default answer.executive_summary []) raw_text
        (parse_claims doc temporal.consistent ids answer.claims)

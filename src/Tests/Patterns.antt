-- ===== src/Tests/Patterns.antt =====
-- services/reasoning_patterns at concrete inputs.
use financial_pdf_reader.Base.{ℕ, ◌≡◌, refl, some, none, false, String, List, [], ◌∷◌}
use financial_pdf_reader.Base.{string_eq, if◌then◌else◌}
use financial_pdf_reader.Base.Sort.{insert_sorted, sorted}
use financial_pdf_reader.Base.Result.{ok}
use financial_pdf_reader.Text.{codes, lower, is_in}
use financial_pdf_reader.Models.{
  AiClaim, financial_observation, observed_fact, tier_a, key_financials, financial_evidence, high,
}
use financial_pdf_reader.Documents.{PdfDocument, completed}
use financial_pdf_reader.Audit.{ReportDocument}
use financial_pdf_reader.Patterns.{
  PatternDefinition, triggered, evaluate_pattern, matches, is_allowed, is_recurring_as, speaks_of,
}
use financial_pdf_reader.Patterns.Matching.{missing_labels}
use financial_pdf_reader.Patterns.Laws.{
  expected_status, is_triggered, evaluate_pattern-status, IsSourced, evaluate_pattern-IsSourced,
}
use financial_pdf_reader.Patterns.Run.{
  PatternRunReport, PatternResponse, clean_claims, run_pattern_analysis,
}
use financial_pdf_reader.Patterns.Sources.{IsAnalysis, run_pattern_analysis-IsAnalysis}

abbrev claim_of : String → String → AiClaim
claim_of id text = record {
  claim_id = id;
  claim = codes text;
  claim_type = financial_observation;
  claim_level = observed_fact;
  materiality = tier_a;
  section_key = key_financials;
  recurring = false;
  contaminated = false;
  source_type = financial_evidence;
  forward_looking = false;
  rhetorical_risk_flag = false;
  rhetorical_risk_terms = [];
  attribution_prefix = [];
  evidence = [];
  confidence = high;
  requires_human_review = false;
}

abbrev claims : List AiClaim
claims = claim_of "a" "other income of 3 million" ∷ claim_of "b" "FX gains" ∷ []

abbrev pattern : PatternDefinition
pattern = record {
  pattern_id = "income";
  name_zh = "income";
  observation_template = "look at it";
  required_filters =
      record {
        section_keys = some ("key_financials" ∷ []);
        materiality = none;
        recurring = some false;
        claim_types = none;
        keywords = some (codes "Income" ∷ []);
        inspect_description = [];
      }
      ∷ [];
  inspect_description = [];
}

pattern_is_triggered : (evaluate_pattern pattern (clean_claims claims)).status ≡ triggered
unfolding evaluate_pattern clean_claims matches is_allowed is_recurring_as speaks_of is_in lower
pattern_is_triggered = refl

evaluate_pattern-status_example :
    ((evaluate_pattern pattern (clean_claims claims)).status
      ≡ expected_status pattern.required_filters (clean_claims claims))
    × ((evaluate_pattern pattern (clean_claims claims)).missing_keys
        ≡ missing_labels 0 pattern.required_filters (clean_claims claims))
    × ((evaluate_pattern pattern (clean_claims claims)).generated_observation ≡ (
        if is_triggered (expected_status pattern.required_filters (clean_claims claims))
        then pattern.observation_template
        else ""))
evaluate_pattern-status_example = evaluate_pattern-status pattern (clean_claims claims)

evaluate_pattern-IsSourced_example :
    IsSourced pattern (clean_claims claims) (evaluate_pattern pattern (clean_claims claims))
evaluate_pattern-IsSourced_example = evaluate_pattern-IsSourced pattern (clean_claims claims)

abbrev document : PdfDocument
document = record {
  document_id = "d";
  stock_id = "2330";
  company_name = codes "TSMC";
  period = "2024Q1";
  industry_type = "semiconductor";
  file_path = "d.pdf";
  total_pages = 1;
  status = completed;
}

abbrev report_at : String → ℕ → List AiClaim → ReportDocument
report_at id at cs = record {
  report_id = id;
  document_id = "d";
  claims = cs;
  investment_advice_detected = false;
  created_at = at;
}

abbrev reports : List ReportDocument
reports = report_at "old" 1 [] ∷ report_at "new" 2 claims ∷ []

run_pattern_analysis-IsAnalysis_example :
    (out : PatternRunReport × PatternResponse) × (run_pattern_analysis
        (document ∷ [])
        reports
        "run"
        "d"
      ≡ ok out)
    × IsAnalysis claims out.0 out.1
unfolding sorted insert_sorted
run_pattern_analysis-IsAnalysis_example =
    run_pattern_analysis-IsAnalysis (document ∷ []) reports "run" "d" document
      (report_at "new" 2 claims) refl refl refl

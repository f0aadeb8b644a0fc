-- ===== src/Tests/Summaries.antt =====
-- `generate_summary` at concrete inputs, and its report under audit.
use financial_pdf_reader.Base.{ℕ, ◌≡◌, refl, ◌↔◌, true, false, Option, none, some, List, [], ◌∷◌}
use financial_pdf_reader.Base.{All, map, string_eq}
use financial_pdf_reader.Base.Result.{ok}
use financial_pdf_reader.Base.Dict.{insert, lookup}
use financial_pdf_reader.Base.Sort.{sorted}
use financial_pdf_reader.Base.{is_empty}
use financial_pdf_reader.Summary.Budget.{
  retrieve_chunks_section_aware, select_chunks, group_chunks, group_append, allocate_section_budget,
  desired_counts, quota_of,
}
use financial_pdf_reader.Text.Blocks.{json_block}
use financial_pdf_reader.Text.{Text, codes}
use financial_pdf_reader.Documents.{PdfDocument, PdfChunk, completed}
use financial_pdf_reader.Governance.{r7}
use financial_pdf_reader.Governance.Report.{IsClean}
use financial_pdf_reader.Ingestion.{find_document}
use financial_pdf_reader.Audit.{AuditReport, claim_to_dict, run_audit}
use financial_pdf_reader.Summary.Report.{RawAnswer}
use financial_pdf_reader.Summary.Generate.{
  SummaryPrompt, ModelReply, replied, StoredSummary, retrieved, generate_summary, stored_summary,
}
use financial_pdf_reader.Summary.Response.{SummaryResponse, serialize_summary_response}
use financial_pdf_reader.Summary.Response.Counts.{status_by, serialize_summary_response-status_by}
use financial_pdf_reader.Summary.Generate.Laws.{
  IsSummary, audited, generate_summary-IsSummary, generate_summary-run_audit,
}

abbrev document : PdfDocument
document = record {
  document_id = "d";
  stock_id = "2330";
  company_name = codes "TSMC";
  period = "2024Q1";
  industry_type = "";
  file_path = "d.pdf";
  total_pages = 1;
  status = completed;
}

abbrev chunks : List PdfChunk
chunks =
    record {
      chunk_id = "c1";
      document_id = "d";
      stock_id = "2330";
      period = "2024Q1";
      page = 1;
      section = "unknown";
      text = codes "text";
      char_count = 4;
    }
    ∷ []

abbrev rounded : ℕ → ℕ → ℕ
rounded part whole = part

abbrev reply : Text
reply = codes "Here it is: {} - done"

abbrev ask : SummaryPrompt → ModelReply
ask p = replied reply

abbrev answer : RawAnswer
answer = record {
  temporal_validation = record {
    is_consistent = none;
    mismatch_note = none;
    document_period = none;
    requested_period = none;
  };
  executive_summary = none;
  claims = [];
}

abbrev loads : Text → Option RawAnswer
loads t = some answer

one_retrieved : is_empty (retrieved chunks "d") ≡ false
unfolding retrieved retrieve_chunks_section_aware sorted select_chunks group_chunks group_append
    insert lookup allocate_section_budget desired_counts quota_of
one_retrieved = refl

-- A block of a reply with braces inside, and none if the braces are the wrong way round.
json_block_test : json_block (codes "a {b} {c} d") ≡ some (codes "{b} {c}")
unfolding json_block
json_block_test = refl

json_block_reversed_test : json_block (codes "} {") ≡ none
unfolding json_block
json_block_reversed_test = refl

generate_summary-IsSummary_example :
    (r : StoredSummary) × (generate_summary rounded rounded ask loads
        (λ _. [])
        (λ _. "i")
        "r"
        (document ∷ [])
        chunks
        "d"
      ≡ ok r)
    × IsSummary chunks "d" r
unfolding find_document json_block
generate_summary-IsSummary_example =
    generate_summary-IsSummary rounded rounded ask loads (λ _. []) (λ _. "i") "r" (document ∷ [])
      chunks "d" document reply (codes "{}") answer refl refl one_retrieved (λ p. refl) refl refl

generate_summary-run_audit_example :
    (r : StoredSummary) × (generate_summary rounded rounded ask loads
        (λ _. [])
        (λ _. "i")
        "r"
        (document ∷ [])
        chunks
        "d"
      ≡ ok r)
    × ((a : AuditReport) × (run_audit (audited 7 r ∷ []) "d" (some "r") ≡ ok a)
        × All (λ v. v.rule ≡ r7) a.warnings
        × ((a.passed ≡ true) ↔ (
            (r.summary.investment_advice_detected ≡ false)
            × All IsClean (map claim_to_dict r.summary.claims))))
unfolding find_document json_block
generate_summary-run_audit_example =
    generate_summary-run_audit rounded rounded ask loads (λ _. []) (λ _. "i") "r" (document ∷ [])
      chunks "d" document reply (codes "{}") answer [] 7 refl refl one_retrieved (λ p. refl) refl
      refl refl

abbrev saved : StoredSummary
saved =
    stored_summary rounded rounded ask loads (λ _. []) (λ _. "i") "r" document "d" chunks reply
      answer

abbrev response : SummaryResponse
response = serialize_summary_response saved

serialize_summary_response-status_by_example :
    response.evidence_status
    ≡ status_by response.total_claims response.contaminated_count
        response.insufficient_evidence_count
serialize_summary_response-status_by_example =
    serialize_summary_response-status_by rounded rounded ask loads (λ _. []) (λ _. "i") "r" document
      "d" chunks reply answer

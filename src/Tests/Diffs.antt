-- ===== src/Tests/Diffs.antt =====
-- services/diff at concrete inputs.
use financial_pdf_reader.Base.{ℕ, String, ◌≡◌, refl, true, none, some, List, [], ◌∷◌, length}
use financial_pdf_reader.Base.{string_eq, select}
use financial_pdf_reader.Base.Result.{ok, raised}
use financial_pdf_reader.Text.{codes, is_space}
use financial_pdf_reader.Documents.{PdfDocument, PdfChunk, completed}
use financial_pdf_reader.Models.Diffs.{DiffReport, text_value, null_value}
use financial_pdf_reader.Ingestion.{find_document}
use financial_pdf_reader.Audit.{DiffAuditReport, run_diff_audit}
use financial_pdf_reader.Diff.Answers.{
  DiffPrompt, RawDiffItem, DiffAnswer, answered, text_page, null_page, has_page,
}
use financial_pdf_reader.Text.Strip.{lstrip_by, rstrip_by}
use financial_pdf_reader.Diff.{
  diff_report, diff_context, generate_diff, invalid_item, only_previous, only_current,
  shared_sections,
}
use financial_pdf_reader.Diff.Grouping.{chunks_of, get_section_chunks, is_filed}
use financial_pdf_reader.Base.Dict.{insert, lookup}
use financial_pdf_reader.Base.Sort.{sorted}
use financial_pdf_reader.Diff.Sections.{files, grouped, get_section_chunks-select}
use financial_pdf_reader.Diff.Audited.{generate_diff-run_diff_audit}

abbrev document_of : String → String → PdfDocument
document_of id period = record {
  document_id = id;
  stock_id = "2330";
  company_name = codes "TSMC";
  period = period;
  industry_type = "semiconductor";
  file_path = "d.pdf";
  total_pages = 2;
  status = completed;
}

abbrev documents : List PdfDocument
documents = document_of "c" "2024Q2" ∷ document_of "p" "2024Q1" ∷ []

abbrev chunk_of : String → String → ℕ → PdfChunk
chunk_of document section page = record {
  chunk_id = "x";
  document_id = document;
  stock_id = "2330";
  period = "2024Q1";
  page = page;
  section = section;
  text = codes "text";
  char_count = 4;
}

abbrev chunks : List PdfChunk
chunks =
    chunk_of "c" "risk_factors" 12
    ∷ chunk_of "p" "risk_factors" 9
    ∷ chunk_of "c" "mda" 3
    ∷ chunk_of "p" "unknown" 1
    ∷ []

abbrev item : RawDiffItem
item = record {
  diff_id = none;
  diff_type = some "tone_shift";
  description = some (text_value (codes "more careful"));
  current_summary = none;
  previous_summary = none;
  evidence = some (record {
    presence = some "both";
    current_page = some (text_page (codes " 12 "));
    current_quoted = none;
    previous_page = none;
    previous_quoted = none;
  });
  tone_only = none;
  requires_human_review = none;
}

abbrev ask : DiffPrompt → DiffAnswer
ask p = answered (item ∷ [])

abbrev report : DiffReport
report =
    diff_report "r" (λ ks. ks)
      (diff_context ask (λ _. "i") chunks (document_of "c" "2024Q2") (document_of "p" "2024Q1"))

generate_diff-run_diff_audit_example :
    (a : DiffAuditReport) × (run_diff_audit (report ∷ []) report.diff_report_id ≡ ok a)
    × (a.violation_count ≡ 0)
    × (a.warning_count ≡ 0)
    × (a.total_items ≡ length report.items)
unfolding generate_diff find_document only_previous get_section_chunks sorted is_filed insert
    only_current lookup shared_sections rstrip_by lstrip_by is_space
generate_diff-run_diff_audit_example =
    generate_diff-run_diff_audit ask (λ ks. ks) (λ _. "i") "r" documents chunks "c" "p" report []
      (λ p. (refl, tt)) refl

-- A page that JSON gives as null counts as a page: its text is "None".
null_page_counts :
    has_page (record item {
      evidence = some (record {
        presence = none;
        current_page = some null_page;
        current_quoted = none;
        previous_page = none;
        previous_quoted = none;
      });
    })
    ≡ true
unfolding has_page lstrip_by rstrip_by is_space
null_page_counts = refl

get_section_chunks-select_example :
    chunks_of "risk_factors" (get_section_chunks chunks "c")
    ≡ select (files "risk_factors") (grouped chunks "c")
get_section_chunks-select_example = get_section_chunks-select "risk_factors" chunks "c"

-- A description that is null makes the whole diff raise at the end.
null_description_raises :
    generate_diff
      (λ _. answered (record item { description = some null_value } ∷ []))
      (λ ks. ks)
      (λ _. "i")
      "r"
      documents
      chunks
      "c"
      "p"
    ≡ raised invalid_item
unfolding generate_diff find_document only_previous get_section_chunks sorted is_filed insert
    only_current lookup shared_sections rstrip_by lstrip_by is_space
null_description_raises = refl

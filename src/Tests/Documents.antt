-- ===== src/Tests/Documents.antt =====
-- Ingestion, classification and the retrieval of chunks at concrete inputs.
use financial_pdf_reader.Base.{ℕ, String, ◌≡◌, refl, ◌⊎◌, ◌≤◌, true, false, Option, none, some}
use financial_pdf_reader.Base.{
  List, [], ◌∷◌, All, length, concat_map, is_empty, leb, min, or_default,
}
use financial_pdf_reader.Base.{arith, string_eq}
use financial_pdf_reader.Base.Dict
use financial_pdf_reader.Base.Dict.{Dict}
use financial_pdf_reader.Base.Sort.{IsSorted}
use financial_pdf_reader.Base.Result.{Result, ok, raised}
use financial_pdf_reader.Text.{Text, codes, is_space}
use financial_pdf_reader.Text.Strip.{visible}
use financial_pdf_reader.Documents.{PdfDocument, PdfChunk, uploaded}
use financial_pdf_reader.Classification.{
  Classification, chunks_of, classify_by_rule, classify_chunk, classify_document, find_chunk,
  invalid_section, chunk_not_found, is_section, manual_override, no_chunks, section_keywords,
}
use financial_pdf_reader.Classification.Rules.{IsBest, classify_by_rule-IsBest}
use financial_pdf_reader.Classification.Sections.{classify_chunk-is_section}
use financial_pdf_reader.Classification.Store.{
  HasSection, stats_total, classify_document-IsRun, manual_override-HasSection,
}
use financial_pdf_reader.Base.Sort.{sorted}
use financial_pdf_reader.Documents.{completed}
use financial_pdf_reader.Text.Blocks.{json_block}
use financial_pdf_reader.Coverage.{
  RawItem, CoverageReport, check_disclosure_coverage, invalid_status,
}
use financial_pdf_reader.Coverage.Laws.{
  IsCoverage, has_choices, check_disclosure_coverage-IsCoverage,
}
use financial_pdf_reader.Ingestion.{
  ChunkData, IngestError, IngestSummary, Store, chunk_page, document_not_found, find_document,
  ingest_pdf,
}
use financial_pdf_reader.Ingestion.Chunks.{IsChunk, chunk_page-Cuts}
use financial_pdf_reader.Ingestion.Documents.{Outcome, ingest_pdf-cases}
use financial_pdf_reader.Summary.Budget.{
  allocate_section_budget, desired_counts, quota_of, retrieve_chunks_section_aware,
}
use financial_pdf_reader.Summary.Budget.Exact.{allocate_section_budget-exact}
use financial_pdf_reader.Summary.Budget.Sections.{IsRetrieval, retrieve_chunks-IsRetrieval}

abbrev page_text : Text
page_text = codes "net revenue\ngrew again"

chunk_page-Cuts_example :
    (cs : List ChunkData) × (chunk_page 3 page_text 14 ≡ some cs)
    × All (IsChunk 3 14) cs
    × (visible is_space (concat_map (λ c. c.text) cs) ≡ visible is_space page_text)
chunk_page-Cuts_example = chunk_page-Cuts 3 14 page_text (omega arith)

chunk_page_test :
    chunk_page 3 page_text 14
    ≡ some (
        record { page = 3; text = codes "net revenue" }
        ∷ record { page = 3; text = codes "grew again" }
        ∷ [])
unfolding chunk_page
chunk_page_test = refl

abbrev document : PdfDocument
document = record {
  document_id = "d";
  stock_id = "2330";
  company_name = codes "TSMC";
  period = "2025Q1";
  industry_type = "general";
  file_path = "uploads/d.pdf";
  total_pages = 0;
  status = uploaded;
}

abbrev store : Store
store = record { documents = document ∷ []; chunks = [] }

abbrev read_pages : String → Option (List Text)
read_pages _ = some (page_text ∷ codes "  " ∷ [])

ingest_pdf-cases_example :
    (r : Result IngestError IngestSummary) × (after : Store) × (ingest_pdf
        (λ _. true)
        read_pages
        (λ _. "fresh")
        "d"
        store
      ≡ some (r, after))
    × ((find_document "d" store.documents ≡ none)
          × (r ≡ raised (document_not_found "d"))
          × (after ≡ store)
        ⊎ ((doc : PdfDocument) × (find_document "d" store.documents ≡ some doc)
            × Outcome (λ _. true) read_pages (λ _. "fresh") "d" store doc r after))
ingest_pdf-cases_example = ingest_pdf-cases (λ _. true) read_pages (λ _. "fresh") "d" store

abbrev chunk_at : String → ℕ → String → String → PdfChunk
chunk_at id page section text = record {
  chunk_id = id;
  document_id = "d";
  stock_id = "2330";
  period = "2025Q1";
  page = page;
  section = section;
  text = codes text;
  char_count = length (codes text);
}

abbrev chunks : List PdfChunk
chunks =
    chunk_at "a" 2 "unknown" "inventory and cash flow"
    ∷ chunk_at "b" 1 "營收" "net revenue"
    ∷ chunk_at "c" 3 "營收" ""
    ∷ []

abbrev silent : Text → Option Text
silent _ = none

classify_by_rule-IsBest_example : IsBest page_text section_keywords (classify_by_rule page_text)
classify_by_rule-IsBest_example = classify_by_rule-IsBest page_text

classify_chunk-is_section_example :
    is_section (classify_chunk (λ t. some t) page_text true).0 ≡ true
classify_chunk-is_section_example = classify_chunk-is_section (λ t. some t) page_text true

classify_document-IsRun_example :
    (is_empty (chunks_of "d" chunks) ≡ true)
      × (classify_document silent "d" true chunks ≡ raised (no_chunks "d"))
    ⊎ ((r : Classification) × (kept : List PdfChunk) × (classify_document silent "d" true chunks
          ≡ ok (r, kept))
        × (is_empty (chunks_of "d" chunks) ≡ false)
        × (r.total_chunks ≡ length (chunks_of "d" chunks))
        × (Dict.total r.section_distribution ≡ r.total_chunks)
        × (stats_total r.stats ≡ r.total_chunks)
        × IsSorted (λ (_, m) (_, n). leb n m) r.section_distribution
        × All HasSection kept)
classify_document-IsRun_example =
    classify_document-IsRun silent "d" true chunks (refl, (refl, (refl, tt)))

manual_override-HasSection_example :
    (is_section "EPS" ≡ false) × (manual_override "a" "EPS" chunks ≡ raised (invalid_section "EPS"))
    ⊎ (find_chunk "a" chunks ≡ none)
      × (manual_override "a" "EPS" chunks ≡ raised (chunk_not_found "a"))
    ⊎ ((c : PdfChunk) × (kept : List PdfChunk) × (find_chunk "a" chunks ≡ some c)
        × (manual_override "a" "EPS" chunks ≡ ok (c.section, kept))
        × (find_chunk "a" kept ≡ some (record c { section = "EPS" }))
        × All HasSection kept)
manual_override-HasSection_example =
    manual_override-HasSection "a" "EPS" chunks (refl, (refl, (refl, tt)))

abbrev by_section : Dict String (List ℕ)
by_section = ("營收", 1 ∷ 2 ∷ 3 ∷ []) ∷ ("EPS", 4 ∷ 5 ∷ []) ∷ []

allocate_section_budget-exact_example :
    (Dict.total (allocate_section_budget by_section 4)
      ≡ min 4 (Dict.total (desired_counts by_section)))
    × ((s : String)
        → Dict.count_of s (allocate_section_budget by_section 4)
          ≤ min (length (or_default (Dict.lookup s by_section) [])) (quota_of s))
allocate_section_budget-exact_example =
    allocate_section_budget-exact by_section 4 (refl, (refl, tt))

retrieve_chunks-IsRetrieval_example :
    (sections : List String) × IsRetrieval chunks 2 sections
      (retrieve_chunks_section_aware chunks 2)
retrieve_chunks-IsRetrieval_example = retrieve_chunks-IsRetrieval chunks 2

abbrev ingested : PdfDocument
ingested = record document { status = completed }

abbrev raw_items : List RawItem
raw_items =
    record {
      key = some "dividends";
      status = some "found";
      evidence_pages = some (codes "12" ∷ []);
      note = none;
    }
    ∷ []

check_disclosure_coverage-IsCoverage_example :
    (has_choices raw_items ≡ true)
      × ((r : CoverageReport) × (check_disclosure_coverage
              (λ _. codes "Here: {...}.")
              (λ _. some raw_items)
              (λ _. some ingested)
              chunks
              "d"
            ≡ ok r)
          × IsCoverage "d" raw_items r)
    ⊎ (has_choices raw_items ≡ false)
      × (check_disclosure_coverage
            (λ _. codes "Here: {...}.")
            (λ _. some raw_items)
            (λ _. some ingested)
            chunks
            "d"
          ≡ raised invalid_status)
unfolding sorted json_block
check_disclosure_coverage-IsCoverage_example =
    check_disclosure_coverage-IsCoverage (λ _. codes "Here: {...}.") (λ _. some raw_items)
      (λ _. some ingested) chunks "d" ingested (codes "{...}") raw_items refl refl refl refl refl
      refl

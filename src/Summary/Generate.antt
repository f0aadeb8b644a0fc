-- ===== src/Summary/Generate.antt =====
-- `generate_summary` of services/summarization from the query to the stored report.
--
-- The language model, `json.loads` and the supplement to an industry's prompt are arguments.
pub mod Laws
use financial_pdf_reader.Base.{ℕ, String, not, Option, none, some}
use financial_pdf_reader.Base.{List, [], ◌∷◌, map, leb, if◌then◌else◌, is_empty}
use financial_pdf_reader.Base.{select, contains, nat_eq, string_eq, text_eq, ◌==◌, take}
use financial_pdf_reader.Base.Sort.{sorted}
use financial_pdf_reader.Base.Result.{◌>>=◌, ◌>>◌, Result, ok, raised, guard, found_or}
use financial_pdf_reader.Text.{Text, codes}
use financial_pdf_reader.Text.Blocks.{json_block}
use financial_pdf_reader.Documents.{PdfDocument, PdfChunk, DocumentStatus, is_completed}
use financial_pdf_reader.Documents.Shown.{build_chunks_text}
use financial_pdf_reader.Ingestion.{find_document}
use financial_pdf_reader.Summary.Budget.{retrieve_chunks_section_aware}
use financial_pdf_reader.Summary.Report.{RawAnswer, SummaryReport, summarize_answer}
use mathlib.Core.Option

-- The values that the prompt is filled with.
pub record SummaryPrompt : Type 0 where
  pub chunks_text : Text
  pub company_name : Text
  pub stock_id : String
  pub period : String
  pub industry_supplement : Text

-- What the call of the model gives.
pub data ModelReply : Type 0 where
  api_error no_text : ModelReply
  replied : Text → ModelReply

pub data SummaryError : Type 0 where
  document_not_found : String → SummaryError
  not_ingested : DocumentStatus → SummaryError
  no_chunks api_failed empty_reply : SummaryError
  unreadable_reply : Text → SummaryError

-- The JSON object of a reply.
unfoldable pub read_reply : (Text → Option RawAnswer) → Text → Result SummaryError RawAnswer
unfolding json_block
read_reply loads raw = elim (json_block raw) [
  | none ↦ raised (unreadable_reply (take 500 raw))
  | some block ↦ found_or (loads block) (unreadable_reply (take 500 raw))
]

unfoldable pub reply_text : ModelReply → Result SummaryError Text
reply_text api_error = raised api_failed
reply_text no_text = raised empty_reply
reply_text (replied t) = ok t

-- `sorted({c.page for c in chunks})`
unfoldable pub distinct : List ℕ → List ℕ
distinct [] = []
distinct (n ∷ ns) = let rest = distinct ns in if contains rest n then rest else n ∷ rest

abbrev pub pages_covered_by : List PdfChunk → List ℕ
pages_covered_by chunks = sorted leb (distinct (map (λ c. c.page) chunks))

-- The `AIReport` that is saved, without its type and its time stamp.
pub record StoredSummary : Type 0 where
  pub report_id : String
  pub document_id : String
  pub stock_id : String
  pub period : String
  pub summary : SummaryReport
  pub chunks_used : List String
  pub pages_covered : List ℕ

-- The chunks of a document in page order, and those that the prompt shows.
abbrev pub chunks_by_page : List PdfChunk → String → List PdfChunk
chunks_by_page store document_id =
    sorted (λ a b. leb a.page b.page) (select (λ c. c.document_id == document_id) store)

unfoldable pub retrieved : List PdfChunk → String → List PdfChunk
retrieved store document_id = retrieve_chunks_section_aware (chunks_by_page store document_id) 60

-- `getattr(doc, "industry_type", "general") or "general"`
abbrev pub industry_of : PdfDocument → String
industry_of doc = if doc.industry_type == "" then "general" else doc.industry_type

unfoldable pub summary_prompt : (String → Text) → PdfDocument → List PdfChunk → SummaryPrompt
unfolding build_chunks_text
summary_prompt supplement doc chunks = record {
  chunks_text = build_chunks_text chunks;
  company_name = doc.company_name;
  stock_id = doc.stock_id;
  period = doc.period;
  industry_supplement = supplement (industry_of doc);
}

module _ (ratio percent : ℕ → ℕ → ℕ) (ask : SummaryPrompt → ModelReply)
    (loads : Text → Option RawAnswer) (supplement : String → Text) (ids : ℕ → String) where
  unfoldable pub stored_summary :
      String → PdfDocument → String → List PdfChunk → Text → RawAnswer → StoredSummary
  stored_summary report_id doc document_id chunks raw answer = record {
    report_id = report_id;
    document_id = document_id;
    stock_id = doc.stock_id;
    period = doc.period;
    summary = summarize_answer ratio percent document_id (codes doc.period) ids raw answer;
    chunks_used = map (λ c. c.chunk_id) chunks;
    pages_covered = pages_covered_by chunks;
  }

  unfoldable pub generate_summary :
      String → List PdfDocument → List PdfChunk → String → Result SummaryError StoredSummary
  unfolding read_reply reply_text distinct retrieved summary_prompt stored_summary
  generate_summary report_id docs store document_id = do
    doc ← found_or (find_document document_id docs) (document_not_found document_id)
    guard (is_completed doc.status) (not_ingested doc.status)
    let chunks = retrieved store document_id
    guard (not (is_empty chunks)) no_chunks
    raw ← reply_text (ask (summary_prompt supplement doc chunks))
    answer ← read_reply loads raw
    ok (stored_summary report_id doc document_id chunks raw answer)

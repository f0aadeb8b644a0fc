-- ===== src/Summary/Generate/Laws.antt =====
-- `generate_summary` of services/summarization: when it stores a report, what the report cites, and
-- what an audit of it says.
use financial_pdf_reader.Base.{ℕ, ◌≤◌, String, ◌≡◌, refl, ap, true, false, Option}
use financial_pdf_reader.Base.{
  some, List, [], ◌∷◌, map, leb, is_empty, length, select, All, All-map,
}
use financial_pdf_reader.Base.{All-select, map-All, ◌==◌, string_eq, eq_iff, ◌↔◌, arith}
use mathlib.Core.List.{Memᴰ}
use financial_pdf_reader.Base.Sort.{All-sorted}
use financial_pdf_reader.Base.Result.{ok}
use financial_pdf_reader.Text.Blocks.{json_block}
use financial_pdf_reader.Text.{Text, codes}
use financial_pdf_reader.Documents.{PdfDocument, PdfChunk, completed, is_completed}
use financial_pdf_reader.Governance.{r7}
use financial_pdf_reader.Governance.Report.{IsClean}
use financial_pdf_reader.Ingestion.{find_document}
use financial_pdf_reader.Audit.{ReportDocument, AuditReport, claim_to_dict, find_report, run_audit}
use financial_pdf_reader.Audit.Laws.{run_audit-parsed}
use financial_pdf_reader.Summary.Claims.Laws.{IsGoverned}
use financial_pdf_reader.Summary.Budget.Retrieval.{retrieve_chunks-All, retrieve_chunks-exact}
use financial_pdf_reader.Summary.Report.{RawAnswer, report_of_claims, summarize_answer, temporal_of}
use financial_pdf_reader.Summary.Report.Laws.{summarize_answer-evidence}
use financial_pdf_reader.Summary.Generate.{
  SummaryPrompt, ModelReply, replied, read_reply, reply_text, StoredSummary, chunks_by_page,
  retrieved, stored_summary, generate_summary,
}

-- The identifier of a chunk of the document.
abbrev pub IsChunkOf : List PdfChunk → String → String → Type 0
IsChunkOf store id k = (c : PdfChunk) × Memᴰ c store × (c.document_id ≡ id) × (c.chunk_id ≡ k)

chunks_by_page-All :
    (store : List PdfChunk) (id : String)
    → All (λ c. Memᴰ c store × (c.document_id ≡ id)) (chunks_by_page store id)
chunks_by_page-All store id =
    All-sorted (λ a b. leb a.page b.page) (λ c. Memᴰ c store × (c.document_id ≡ id))
      (select (λ c. c.document_id == id) store)
      (All-map (λ c (m, e). (m, (eq_iff c.document_id id).0 e))
        (select (λ c. c.document_id == id) store) (All-select (λ c. c.document_id == id) store))

retrieved-IsChunkOf :
    (store : List PdfChunk) (id : String)
    → All (IsChunkOf store id) (map (λ c. c.chunk_id) (retrieved store id))
unfolding retrieved
retrieved-IsChunkOf store id =
    map-All (IsChunkOf store id) (λ c. c.chunk_id) (retrieved store id)
      (All-map (λ c (m, e). (c, m, e, refl)) (retrieved store id)
        (retrieve_chunks-All (λ c. Memᴰ c store × (c.document_id ≡ id)) (chunks_by_page store id) 60
          (chunks_by_page-All store id)))

length-map : (cs : List PdfChunk) → length (map (λ c. c.chunk_id) cs) ≡ length cs
length-map [] = refl
length-map (c ∷ cs) = omega (arith, length-map cs)

length-retrieved-le :
    (store : List PdfChunk) (id : String) → length (map (λ c. c.chunk_id) (retrieved store id)) ≤ 60
unfolding retrieved
length-retrieved-le store id =
    omega (
      arith,
      length-map (retrieved store id),
      (retrieve_chunks-exact (chunks_by_page store id) 60).0,
    )

-- What is stored of a summary.
pub record IsSummary (store : List PdfChunk) (id : String) (r : StoredSummary) : Type 0 where
  pub cited : All (IsChunkOf store id) r.chunks_used
  pub fits : length r.chunks_used ≤ 60
  pub governed : All (IsGoverned id) r.summary.claims
  pub valid : r.summary.dashboard_contract_valid ≡ true

-- The stored report, as the audit finds it.
abbrev pub audited : ℕ → StoredSummary → ReportDocument
audited created_at r = record {
  report_id = r.report_id;
  document_id = r.document_id;
  claims = r.summary.claims;
  investment_advice_detected = r.summary.investment_advice_detected;
  created_at = created_at;
}

module _ (ratio percent : ℕ → ℕ → ℕ) (ask : SummaryPrompt → ModelReply)
    (loads : Text → Option RawAnswer) (supplement : String → Text) (ids : ℕ → String)
    (report_id : String) (docs : List PdfDocument) (store : List PdfChunk) (id : String)
    (doc : PdfDocument) (raw block : Text) (answer : RawAnswer)
    (found : find_document id docs ≡ some doc) (done : doc.status ≡ completed)
    (some_chunk : is_empty (retrieved store id) ≡ false)
    (replies : (p : SummaryPrompt) → ask p ≡ replied raw) (holds_json : json_block raw ≡ some block)
    (parses : loads block ≡ some answer) where
  abbrev saved : StoredSummary
  saved =
      stored_summary ratio percent ask loads supplement ids report_id doc id (retrieved store id)
        raw answer

  read_reply-eq : read_reply loads raw ≡ ok answer
  unfolding read_reply
  read_reply-eq = rw (holds_json, read_reply) (rw parses refl)

  generate_summary-eq :
      generate_summary ratio percent ask loads supplement ids report_id docs store id ≡ ok saved
  unfolding generate_summary reply_text
  generate_summary-eq =
      rw found (rw (ap is_completed done) (rw some_chunk (rw (replies _) (rw read_reply-eq refl))))

-- For a completed document with a chunk to show, a reply of the model that holds a readable JSON
-- object is turned into a stored report: it cites at most 60 chunks, all of this document, its claims
-- are governed and its dashboard keeps the contract.
pub generate_summary-IsSummary :
    (ratio percent : ℕ → ℕ → ℕ) (ask : SummaryPrompt → ModelReply) (loads : Text → Option RawAnswer)
    (supplement : String → Text) (ids : ℕ → String) (report_id : String) (docs : List PdfDocument)
    (store : List PdfChunk) (id : String) (doc : PdfDocument) (raw block : Text)
    (answer : RawAnswer)
    → find_document id docs ≡ some doc
    → doc.status ≡ completed
    → is_empty (retrieved store id) ≡ false
    → ((p : SummaryPrompt) → ask p ≡ replied raw)
    → json_block raw ≡ some block
    → loads block ≡ some answer
    → (r : StoredSummary) × (generate_summary ratio percent ask loads supplement ids report_id docs
          store id
        ≡ ok r)
      × IsSummary store id r
unfolding stored_summary
generate_summary-IsSummary ratio percent ask loads supplement ids report_id docs store id doc raw
      block answer found done some_chunk replies holds_json parses =
    let evidence = summarize_answer-evidence ratio percent id (codes doc.period) ids raw answer in
    (
      saved ratio percent ask loads supplement ids report_id docs store id doc raw block answer
          found done some_chunk replies holds_json parses,
      generate_summary-eq ratio percent ask loads supplement ids report_id docs store id doc raw
          block answer found done some_chunk replies holds_json parses,
      record {
        cited = retrieved-IsChunkOf store id;
        fits = length-retrieved-le store id;
        governed = evidence.1;
        valid = evidence.0;
      },
    )

find_report-saved :
    (id : String) (r : ReportDocument) (reports : List ReportDocument)
    → r.document_id ≡ id
    → (r.report_id == "") ≡ false
    → find_report id (some r.report_id) (r ∷ reports) ≡ some r
unfolding find_report
find_report-saved id r reports of_document named = rw named (
    rw ((eq_iff r.document_id id).1 of_document)
      (rw ((eq_iff r.report_id r.report_id).1 refl) refl))

-- A report that is stored in this way is found by its identifier, if that is not empty, and its audit
-- returns a result: it warns by R7 alone, and passes exactly if no advice was detected in the reply
-- and every claim is clean.
pub generate_summary-run_audit :
    (ratio percent : ℕ → ℕ → ℕ) (ask : SummaryPrompt → ModelReply) (loads : Text → Option RawAnswer)
    (supplement : String → Text) (ids : ℕ → String) (report_id : String) (docs : List PdfDocument)
    (store : List PdfChunk) (id : String) (doc : PdfDocument) (raw block : Text)
    (answer : RawAnswer) (reports : List ReportDocument) (created_at : ℕ)
    → find_document id docs ≡ some doc
    → doc.status ≡ completed
    → is_empty (retrieved store id) ≡ false
    → ((p : SummaryPrompt) → ask p ≡ replied raw)
    → json_block raw ≡ some block
    → loads block ≡ some answer
    → (report_id == "") ≡ false
    → (r : StoredSummary) × (generate_summary ratio percent ask loads supplement ids report_id docs
          store id
        ≡ ok r)
      × ((a : AuditReport) × (run_audit (audited created_at r ∷ reports) id (some report_id) ≡ ok a)
          × All (λ v. v.rule ≡ r7) a.warnings
          × ((a.passed ≡ true) ↔ (
              (r.summary.investment_advice_detected ≡ false)
              × All IsClean (map claim_to_dict r.summary.claims))))
unfolding stored_summary summarize_answer report_of_claims
generate_summary-run_audit ratio percent ask loads supplement ids report_id docs store id doc raw
      block answer reports created_at found done some_chunk replies holds_json parses named =
    let r =
      saved ratio percent ask loads supplement ids report_id docs store id doc raw block answer
        found done some_chunk replies holds_json parses in
    (
      r,
      generate_summary-eq ratio percent ask loads supplement ids report_id docs store id doc raw
          block answer found done some_chunk replies holds_json parses,
      run_audit-parsed (audited created_at r ∷ reports) id (some report_id) (audited created_at r)
          (temporal_of (codes doc.period) answer.temporal_validation).consistent ids answer.claims
          (find_report-saved id (audited created_at r) reports refl named) refl,
    )

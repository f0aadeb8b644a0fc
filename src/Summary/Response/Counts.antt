-- ===== src/Summary/Response/Counts.antt =====
-- The counts that the serializer shows, and the status that `generate_summary` stores.
use financial_pdf_reader.Base.{ℕ, ◌+◌, String, ◌≡◌, refl, Option, not, ◌&&◌, List, [], ◌∷◌}
use financial_pdf_reader.Base.{length, select, count_if, eqb, ltb, if◌then◌else◌, arith}
use financial_pdf_reader.Text.{Text}
use financial_pdf_reader.Documents.{PdfDocument, PdfChunk}
use financial_pdf_reader.Models.{AiClaim, is_insufficient}
use financial_pdf_reader.Summary.Report.{
  RawAnswer, EvidenceStatus, complete, partial, insufficient, report_of_claims, summarize_answer,
  evidence_status_of,
}
use financial_pdf_reader.Summary.Generate.{SummaryPrompt, ModelReply, stored_summary}
use financial_pdf_reader.Summary.Response.{serialize_summary_response}

-- The status that a reader of the response would work out from its counts.
abbrev pub status_by : ℕ → ℕ → ℕ → EvidenceStatus
status_by total contaminated gaps =
    if eqb total contaminated
    then insufficient
    else if eqb gaps 0
    then complete
    else if ltb (contaminated + gaps) total
    then partial
    else insufficient

length-clean :
    (cs : List AiClaim)
    → length (select (λ c. not c.contaminated) cs) + count_if (λ c. c.contaminated) cs ≡ length cs
length-clean [] = refl
length-clean (c ∷ cs) = ground (arith, length-clean cs)

count_if-clean :
    (cs : List AiClaim)
    → count_if (λ c. is_insufficient c.claim_level) (select (λ c. not c.contaminated) cs)
      ≡ count_if (λ c. is_insufficient c.claim_level && not c.contaminated) cs
count_if-clean [] = refl
count_if-clean (c ∷ cs) = ground (arith, count_if-clean cs)

evidence_status-status_by :
    (cs : List AiClaim)
    → evidence_status_of (select (λ c. not c.contaminated) cs)
      ≡ status_by
          (length cs)
          (count_if (λ c. c.contaminated) cs)
          (count_if (λ c. is_insufficient c.claim_level && not c.contaminated) cs)
unfolding evidence_status_of
evidence_status-status_by cs = ground (arith, length-clean cs, count_if-clean cs)

-- The evidence status in the response for a stored summary is the one that its counts give: with no
-- claim but contaminated ones insufficient, without a gap complete, with fewer gaps than claims that
-- are not contaminated partial, and else insufficient.
pub serialize_summary_response-status_by :
    (ratio percent : ℕ → ℕ → ℕ) (ask : SummaryPrompt → ModelReply) (loads : Text → Option RawAnswer)
    (supplement : String → Text) (ids : ℕ → String) (report_id : String) (doc : PdfDocument)
    (id : String) (chunks : List PdfChunk) (raw : Text) (answer : RawAnswer)
    → let s = serialize_summary_response (
        stored_summary ratio percent ask loads supplement ids report_id doc id chunks raw answer) in
      s.evidence_status
      ≡ status_by s.total_claims s.contaminated_count s.insufficient_evidence_count
unfolding serialize_summary_response stored_summary summarize_answer report_of_claims
serialize_summary_response-status_by ratio percent ask loads supplement ids report_id doc id chunks
      raw answer =
    evidence_status-status_by
      (stored_summary ratio percent ask loads supplement ids report_id doc id chunks raw
        answer).summary.claims

-- ===== src/Diff/Laws.antt =====
-- `generate_diff` of services/diff: when it returns a report, and what the report holds.
use financial_pdf_reader.Base.{ℕ, String, ◌≡◌, true, not, ◌&&◌}
use financial_pdf_reader.Base.{List, any, contains, All}
use financial_pdf_reader.Base.{string_eq}
use financial_pdf_reader.Documents.{PdfDocument, PdfChunk}
use financial_pdf_reader.Models.Diffs.{DiffReport}
use financial_pdf_reader.Diff.Answers.{DiffPrompt, DiffAnswer}
use financial_pdf_reader.Diff.{DiffContext, diff_context}
use financial_pdf_reader.Diff.Sections.{has_section}
use financial_pdf_reader.Diff.Loops.{is_new_item, is_removed_item}
use financial_pdf_reader.Diff.Items.{IsDiffItem}

-- What a report on two documents holds: sections split into those of both and those of one, items
-- with a page text, and an item for every section that only one document has.
pub record IsDiffReport (store : List PdfChunk) (current previous : String) (r : DiffReport)
    : Type 0 where
  pub cited : All (IsDiffItem current previous) r.items
  pub compared :
      (s : String)
      → contains r.sections_compared s
        ≡ (has_section store current s && has_section store previous s)
  pub only_in_current :
      (s : String)
      → contains r.sections_only_current s
        ≡ (has_section store current s && not (has_section store previous s))
  pub only_in_previous :
      (s : String)
      → contains r.sections_only_previous s
        ≡ (has_section store previous s && not (has_section store current s))
  pub news :
      (s : String) → contains r.sections_only_current s ≡ true → any (is_new_item s) r.items ≡ true
  pub losses :
      (s : String)
      → contains r.sections_only_previous s ≡ true
      → any (is_removed_item s) r.items ≡ true

module _ (ask : DiffPrompt → DiffAnswer) (order : List String → List String) (ids : ℕ → String)
    (order_keeps : (ks : List String) (s : String) → contains (order ks) s ≡ contains ks s)
    (store : List PdfChunk) (current previous : PdfDocument) where
  abbrev context : DiffContext
  context = diff_context ask ids store current previous

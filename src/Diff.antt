-- ===== src/Diff.antt =====
-- services/diff/__init__.py: the differences between two reports of a company, section by section.
--
-- The language model is an argument: for a prompt it raises, or its answer holds no JSON that can be
-- read, or it gives items. The order in which Python runs through a set is an argument too.
pub mod Grouping
pub mod Answers
pub mod Response
pub mod Sections
pub mod Loops
pub mod Items
pub mod Storable
pub mod Laws
pub mod Audited
use financial_pdf_reader.Base.{ℕ, ◌+◌, String, true, false, not, ◌&&◌, List, [], ◌∷◌, ◌++◌}
use financial_pdf_reader.Base.{or_default, length, take, select, contains, ◌==◌, string_eq, some}
use financial_pdf_reader.Base.{all}
use financial_pdf_reader.Base.Dict.{Dict, keys}
use financial_pdf_reader.Base.Sort.{sorted}
use financial_pdf_reader.Base.Result.{◌>>=◌, ◌>>◌, Result, ok, guard, found_or}
use financial_pdf_reader.Text.{codes}
use financial_pdf_reader.Text.Digits.{decimal}
use financial_pdf_reader.Documents.{PdfDocument, PdfChunk, is_completed}
use financial_pdf_reader.Models.Diffs.{text_value, DiffItem, DiffReport, is_storable}
use financial_pdf_reader.Ingestion.{find_document}
use financial_pdf_reader.Diff.Grouping.{string_le, get_section_chunks, chunks_of}
use financial_pdf_reader.Diff.Answers.{DiffPrompt, DiffAnswer, diff_section}

-- What does not change while the items are collected.
pub record DiffContext : Type 0 where
  pub ask : DiffPrompt → DiffAnswer
  pub ids : ℕ → String
  pub current : PdfDocument
  pub previous : PdfDocument
  pub current_by_section : Dict String (List PdfChunk)
  pub previous_by_section : Dict String (List PdfChunk)

-- The loop over the shared sections, which skips a section whose call raises.
unfoldable pub diff_shared : DiffContext → List String → List DiffItem → List DiffItem
unfolding diff_section
diff_shared x [] items = items
diff_shared x (section ∷ sections) items = diff_shared x sections (
    items
    ++ or_default
        (diff_section x.ask section (chunks_of section x.current_by_section)
          (chunks_of section x.previous_by_section) x.current x.previous x.ids (length items))
        [])

-- The item for a section that only the current document has, from its first chunk.
unfoldable pub new_section_item : String → String → String → PdfChunk → DiffItem
new_section_item document_id fresh section chunk = record {
  diff_id = text_value fresh;
  section = section;
  diff_type = "new_language";
  description = text_value (codes "本季新出現段落「" ++ (codes section ++ codes "」，上季無對應內容"));
  current_summary = take 200 chunk.text;
  previous_summary = [];
  evidence = some (record {
    current_document_id = document_id;
    current_page = decimal chunk.page;
    current_quoted = take 80 chunk.text;
    previous_document_id = "";
    previous_page = [];
    previous_quoted = [];
    presence = "only_in_current";
  });
  requires_human_review = true;
  tone_only = false;
}

unfoldable pub removed_section_item : String → String → String → PdfChunk → DiffItem
removed_section_item document_id fresh section chunk = record {
  diff_id = text_value fresh;
  section = section;
  diff_type = "removed_language";
  description = text_value (codes "上季存在段落「" ++ (codes section ++ codes "」，本季無對應內容"));
  current_summary = [];
  previous_summary = take 200 chunk.text;
  evidence = some (record {
    current_document_id = "";
    current_page = [];
    current_quoted = [];
    previous_document_id = document_id;
    previous_page = decimal chunk.page;
    previous_quoted = take 80 chunk.text;
    presence = "only_in_previous";
  });
  requires_human_review = true;
  tone_only = false;
}

-- `if chunks: all_items.append(...)`
abbrev pub append_first :
    (String → PdfChunk → DiffItem) → (ℕ → String) → List PdfChunk → List DiffItem → List DiffItem
append_first item ids [] items = items
append_first item ids (c ∷ cs) items = items ++ item (ids (length items)) c ∷ []

unfoldable pub add_new_sections : DiffContext → List String → List DiffItem → List DiffItem
unfolding new_section_item
add_new_sections x [] items = items
add_new_sections x (section ∷ sections) items = add_new_sections x sections (
    append_first (λ fresh c. new_section_item x.current.document_id fresh section c) x.ids
      (chunks_of section x.current_by_section) items)

unfoldable pub add_removed_sections : DiffContext → List String → List DiffItem → List DiffItem
unfolding removed_section_item
add_removed_sections x [] items = items
add_removed_sections x (section ∷ sections) items = add_removed_sections x sections (
    append_first (λ fresh c. removed_section_item x.previous.document_id fresh section c) x.ids
      (chunks_of section x.previous_by_section) items)

-- The three sets of sections.
unfoldable pub shared_sections : DiffContext → List String
shared_sections x =
    select (λ s. contains (keys x.previous_by_section) s) (keys x.current_by_section)

unfoldable pub only_current : DiffContext → List String
only_current x =
    select (λ s. not (contains (keys x.previous_by_section) s)) (keys x.current_by_section)

unfoldable pub only_previous : DiffContext → List String
only_previous x =
    select (λ s. not (contains (keys x.current_by_section) s)) (keys x.previous_by_section)

unfoldable pub all_items : (List String → List String) → DiffContext → List DiffItem
unfolding diff_shared add_new_sections add_removed_sections
all_items order x = add_removed_sections x (order (only_previous x)) (
    add_new_sections x (order (only_current x))
      (diff_shared x (sorted string_le (shared_sections x)) []))

unfoldable pub diff_report : String → (List String → List String) → DiffContext → DiffReport
unfolding all_items
diff_report report_id order x = record {
  diff_report_id = report_id;
  current_document_id = x.current.document_id;
  previous_document_id = x.previous.document_id;
  stock_id = x.current.stock_id;
  current_period = x.current.period;
  previous_period = x.previous.period;
  items = all_items order x;
  sections_compared = sorted string_le (shared_sections x);
  sections_only_current = sorted string_le (only_current x);
  sections_only_previous = sorted string_le (only_previous x);
  requires_human_review = true;
}

pub data DiffError : Type 0 where
  current_not_found previous_not_found : String → DiffError
  stock_mismatch : String → String → DiffError
  not_ingested : DiffError
  invalid_item : DiffError

-- `report.save()`, which validates the items.
unfoldable pub save_report : DiffReport → Result DiffError DiffReport
save_report r = do guard (all is_storable r.items) invalid_item; ok r

unfoldable pub diff_context :
    (DiffPrompt → DiffAnswer)
    → (ℕ → String)
    → List PdfChunk
    → PdfDocument
    → PdfDocument
    → DiffContext
diff_context ask ids store current previous = record {
  ask = ask;
  ids = ids;
  current = current;
  previous = previous;
  current_by_section = get_section_chunks store current.document_id;
  previous_by_section = get_section_chunks store previous.document_id;
}

-- The rest of `generate_diff` once both documents are found.
unfoldable pub compare_documents :
    (DiffPrompt → DiffAnswer)
    → (List String → List String)
    → (ℕ → String)
    → String
    → List PdfChunk
    → PdfDocument
    → PdfDocument
    → Result DiffError DiffReport
unfolding diff_report diff_context save_report
compare_documents ask order ids report_id store current previous = do
  guard (current.stock_id == previous.stock_id) (stock_mismatch current.stock_id previous.stock_id)
  guard (is_completed current.status && is_completed previous.status) not_ingested
  save_report (diff_report report_id order (diff_context ask ids store current previous))

-- The report that is saved.
unfoldable pub generate_diff :
    (DiffPrompt → DiffAnswer)
    → (List String → List String)
    → (ℕ → String)
    → String
    → List PdfDocument
    → List PdfChunk
    → String
    → String
    → Result DiffError DiffReport
unfolding compare_documents
generate_diff ask order ids report_id docs store current_id previous_id = do
  current ← found_or (find_document current_id docs) (current_not_found current_id)
  previous ← found_or (find_document previous_id docs) (previous_not_found previous_id)
  compare_documents ask order ids report_id store current previous

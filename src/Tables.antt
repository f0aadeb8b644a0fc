-- ===== src/Tables.antt =====
-- services/text_extraction/__init__.py: tables of a PDF as markdown, their quality, and the search
-- for a number in them.
--
-- pdfplumber is an argument: the tables of each page, or nothing where `extract_tables` raises.
pub mod Columns
pub mod Laws
use financial_pdf_reader.Base.{ℕ, suc, ◌-◌, ◌*◌, String, Bool, true, false, not, ◌&&◌, ◌||◌}
use financial_pdf_reader.Base.{Option, none, some, List, [], ◌∷◌, ◌++◌, map, ltb, eqb, min, max}
use financial_pdf_reader.Base.{if◌then◌else◌, length, take, replicate, is_empty, select, ◌==◌}
use financial_pdf_reader.Base.{string_eq}
use financial_pdf_reader.Base.Result.{◌>>=◌, ◌>>◌, Result, ok, guard, found_or}
use financial_pdf_reader.Text.{Text, codes, is_in, is_space}
use financial_pdf_reader.Text.Strip.{strip_by}
use financial_pdf_reader.Text.Lines.{split_on, join}
use financial_pdf_reader.Documents.{
  PdfDocument, PdfTable, Quality, high_quality, medium_quality, low_quality,
}
use financial_pdf_reader.Ingestion.{find_document}
use financial_pdf_reader.Classification.{classify_chunk}

-- A row as pdfplumber extracts it; a cell without text is `None`.
abbrev pub Row : Type 0
Row = List (Option Text)

abbrev pub clean_cell : Option Text → Text
clean_cell none = []
clean_cell (some t) = strip_by is_space t

abbrev pub clean_row : Row → List Text
clean_row = map clean_cell

-- `"| " + " | ".join(cells) + " |"`
unfoldable pub row_line : List Text → Text
unfolding join
row_line cells = codes "| " ++ (join (codes " | ") cells ++ codes " |")

-- `(row + [""] * (col_count - len(row)))[:col_count]`
unfoldable pub padded : ℕ → List Text → List Text
padded col_count row = take col_count (row ++ replicate (col_count - length row) [])

unfoldable pub rows_to_markdown : List Row → Text
unfolding row_line padded join
rows_to_markdown [] = []
rows_to_markdown (header ∷ rows) =
    let col_count = length (clean_row header) in
    join (codes "\n") (
      row_line (clean_row header)
      ∷ row_line (replicate col_count (codes "---"))
      ∷ map (λ row. row_line (padded col_count (clean_row row))) rows)

-- `max` and `min` of the lengths of the rows, from the length of the first.
abbrev pub max_cols : ℕ → List Row → ℕ
max_cols n [] = n
max_cols n (r ∷ rs) = max_cols (max n (length r)) rs

abbrev pub min_cols : ℕ → List Row → ℕ
min_cols n [] = n
min_cols n (r ∷ rs) = min_cols (min n (length r)) rs

-- The thresholds 0.5 and 0.8 of the two counts.
unfoldable pub quality_of : ℕ → ℕ → Quality
quality_of least most =
    if ltb (2 * least) most
    then low_quality
    else if ltb (5 * least) (4 * most)
    then medium_quality
    else high_quality

unfoldable pub assess_quality : List Row → Quality
unfolding quality_of
assess_quality [] = low_quality
assess_quality (r ∷ []) = low_quality
assess_quality (r ∷ s ∷ rs) =
    quality_of (min_cols (length r) (s ∷ rs)) (max_cols (length r) (s ∷ rs))

abbrev pub is_low : Quality → Bool
is_low low_quality = true
is_low _ = false

-- What the loops of `extract_tables` change.
pub record Extraction : Type 0 where
  pub tables : List PdfTable
  pub tables_created : ℕ
  pub tables_failed : ℕ
  pub pages_with_tables : ℕ

-- `len(rows[0]) if rows else 0`
abbrev pub first_length : List Row → ℕ
first_length [] = 0
first_length (r ∷ rs) = length r

unfoldable pub table_of : PdfDocument → String → String → ℕ → ℕ → List Row → Text → PdfTable
table_of doc document_id table_id page index rows markdown = record {
  table_id = table_id;
  document_id = document_id;
  stock_id = doc.stock_id;
  period = doc.period;
  page = page;
  section = (classify_chunk (λ _. none) markdown false).0;
  table_index = index;
  table_markdown = markdown;
  row_count = length rows;
  col_count = first_length rows;
  extraction_quality = assess_quality rows;
  requires_human_review = is_low (assess_quality rows);
}

-- The loop body for one table of a page. The saved tables get fresh identifiers in turn.
unfoldable pub add_table :
    PdfDocument → String → (ℕ → String) → ℕ → ℕ → List Row → Extraction → Extraction
unfolding rows_to_markdown table_of
add_table doc document_id ids page index rows x =
    if is_empty rows
    then x
    else if is_empty (rows_to_markdown rows)
    then record x { tables_failed = suc x.tables_failed }
    else record x {
      tables =
          x.tables
          ++ table_of doc document_id (ids x.tables_created) page index rows (rows_to_markdown rows)
            ∷ [];
      tables_created = suc x.tables_created;
    }

unfoldable pub add_tables :
    PdfDocument → String → (ℕ → String) → ℕ → ℕ → List (List Row) → Extraction → Extraction
unfolding add_table
add_tables doc document_id ids page index [] x = x
add_tables doc document_id ids page index (rows ∷ tables) x =
    add_tables doc document_id ids page (suc index) tables
      (add_table doc document_id ids page index rows x)

-- The loop body for one page.
unfoldable pub add_page :
    PdfDocument → String → (ℕ → String) → ℕ → Option (List (List Row)) → Extraction → Extraction
unfolding add_tables
add_page doc document_id ids page none x = record x { tables_failed = suc x.tables_failed }
add_page doc document_id ids page (some []) x = x
add_page doc document_id ids page (some (t ∷ ts)) x =
    add_tables doc document_id ids page 0 (t ∷ ts)
      (record x { pages_with_tables = suc x.pages_with_tables })

unfoldable pub add_pages :
    PdfDocument
    → String
    → (ℕ → String)
    → ℕ
    → List (Option (List (List Row)))
    → Extraction
    → Extraction
unfolding add_page
add_pages doc document_id ids page [] x = x
add_pages doc document_id ids page (p ∷ pages) x =
    add_pages doc document_id ids (suc page) pages (add_page doc document_id ids page p x)

pub data TableError : Type 0 where
  document_not_found : String → TableError
  file_missing : String → TableError
  unreadable : TableError

-- The dict that `extract_tables` returns.
pub record TableSummary : Type 0 where
  pub document_id : String
  pub tables_created : ℕ
  pub tables_failed : ℕ
  pub pages_with_tables : ℕ

-- The stored tables afterwards and the summary; an exception comes before the first table is saved.
unfoldable pub extract_tables :
    (String → Bool)
    → (String → Option (List (Option (List (List Row)))))
    → (ℕ → String)
    → List PdfDocument
    → List PdfTable
    → String
    → Result TableError (List PdfTable × TableSummary)
unfolding add_pages
extract_tables exists open_pdf ids docs store document_id = do
  doc ← found_or (find_document document_id docs) (document_not_found document_id)
  guard (exists doc.file_path) (file_missing doc.file_path)
  pages ← found_or (open_pdf doc.file_path) unreadable
  let x =
      add_pages doc document_id ids 1 pages
        (record { tables = store; tables_created = 0; tables_failed = 0; pages_with_tables = 0 })
  ok (
    x.tables,
    record {
      document_id = document_id;
      tables_created = x.tables_created;
      tables_failed = x.tables_failed;
      pages_with_tables = x.pages_with_tables;
    },
  )

-- `re.sub(r"[,\s]", "", s)`
abbrev pub squeezed : Text → Text
squeezed = select (λ c. not (eqb c b',' || is_space c))

-- `squeezed(line) and clean_num in squeezed(line)`
abbrev pub shows_number : Text → Text → Bool
shows_number clean_num line = not (is_empty (squeezed line)) && is_in clean_num (squeezed line)

-- The snippet: the first line that shows the number, or nothing.
unfoldable pub snippet_of : Text → List Text → Text
snippet_of clean_num [] = []
snippet_of clean_num (line ∷ lines) =
    let rest = snippet_of clean_num lines in
    if shows_number clean_num line then take 120 (strip_by is_space line) else rest

-- The dict of one match.
pub record NumericEvidence : Type 0 where
  pub table_id : String
  pub page : ℕ
  pub section : String
  pub extraction_quality : Quality
  pub requires_human_review : Bool
  pub markdown_snippet : Text

abbrev pub evidence_of : Text → PdfTable → NumericEvidence
evidence_of clean_num t = record {
  table_id = t.table_id;
  page = t.page;
  section = t.section;
  extraction_quality = t.extraction_quality;
  requires_human_review = t.requires_human_review;
  markdown_snippet = snippet_of clean_num (split_on 10 t.table_markdown);
}

unfoldable pub find_numeric_evidence : List PdfTable → String → Text → List NumericEvidence
unfolding snippet_of split_on is_in
find_numeric_evidence store document_id number_str =
    let clean_num = squeezed number_str in
    map (evidence_of clean_num) (
      select (λ t. is_in clean_num (squeezed t.table_markdown))
        (select (λ t. t.document_id == document_id) store))

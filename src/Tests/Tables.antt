-- ===== src/Tests/Tables.antt =====
-- services/text_extraction and services/kpi_normalization at concrete inputs.
use financial_pdf_reader.Base.{◌≡◌, refl, true, false, Option, none, some, not}
use financial_pdf_reader.Base.{List, [], ◌∷◌, ◌++◌, All, select, length, sum_of, count_if}
use financial_pdf_reader.Base.{string_eq}
use financial_pdf_reader.Base.Result.{ok}
use financial_pdf_reader.Text.{codes, is_space}
use financial_pdf_reader.Text.Strip.{lstrip_by, rstrip_by}
use financial_pdf_reader.Text.Lines.{is_break}
use financial_pdf_reader.Documents.{PdfDocument, PdfTable, completed, high_quality}
use financial_pdf_reader.Ingestion.{find_document}
use financial_pdf_reader.Tables.{
  Row, rows_to_markdown, assess_quality, TableSummary, extract_tables,
}
use financial_pdf_reader.Tables.Columns.{expected_quality, assess_quality-eq-expected_quality}
use financial_pdf_reader.Tables.Laws.{
  IsTable, page_count, is_failed_page, has_tables, extract_tables-IsTable,
}
use financial_pdf_reader.Kpis.{is_rule, parse_markdown_rows, parse_number, KpiReport, extract_kpis}
use financial_pdf_reader.Kpis.RoundTrip.{grid, parse_markdown_rows-rows_to_markdown}
use financial_pdf_reader.Kpis.Digits.{numeral}
use financial_pdf_reader.Base.Decimal.{Decimal, Float, finite, opposite}
use financial_pdf_reader.Kpis.Printed.{parse_number-decimal}
use financial_pdf_reader.Text.Digits.{decimal}
use financial_pdf_reader.Kpis.{is_comma}
use financial_pdf_reader.Text.Numerals.{digit_of}
use financial_pdf_reader.Kpis.Laws.{IsKpiReport, extract_kpis-IsKpiReport}

abbrev rows : List Row
rows =
    (some (codes " Item ") ∷ some (codes "2024") ∷ [])
    ∷ (some (codes "Revenue") ∷ some (codes "1,234") ∷ none ∷ [])
    ∷ (none ∷ [])
    ∷ []

parse_markdown_rows-rows_to_markdown_example :
    parse_markdown_rows (rows_to_markdown rows) ≡ select (λ r. not (is_rule r)) (grid rows)
unfolding lstrip_by rstrip_by is_space is_break
parse_markdown_rows-rows_to_markdown_example = parse_markdown_rows-rows_to_markdown rows (
  ((refl, refl), ((refl, refl), tt)),
  (((refl, refl), ((refl, refl), ((refl, refl), tt))), (((refl, refl), tt), tt)),
)

-- The double of a numeral with few digits is, for comparisons, the decimal itself.
abbrev float : Decimal → Float
float = finite

parse_number-decimal_example :
    (parse_number float (codes "1,234.50") ≡ some (finite (numeral 123450 2)))
    × (parse_number float (codes "(1,234.50)") ≡ some (opposite (finite (numeral 123450 2))))
    × (parse_number float (codes "（1,234.50）") ≡ some (opposite (finite (numeral 123450 2))))
    × (parse_number float (codes "1,234.50%") ≡ some (finite (numeral 123450 2)))
unfolding digit_of is_comma decimal
parse_number-decimal_example =
    parse_number-decimal float 1234 b'1' (codes ",234") (codes "50") refl refl refl

assess_quality-eq-expected_quality_example : assess_quality rows ≡ expected_quality rows
assess_quality-eq-expected_quality_example = assess_quality-eq-expected_quality rows

abbrev document : PdfDocument
document = record {
  document_id = "d";
  stock_id = "2330";
  company_name = codes "TSMC";
  period = "2024Q1";
  industry_type = "semiconductor";
  file_path = "d.pdf";
  total_pages = 2;
  status = completed;
}

abbrev pages : List (Option (List (List Row)))
pages = some (rows ∷ [] ∷ []) ∷ none ∷ []

extract_tables-IsTable_example :
    (new : List PdfTable) × (summary : TableSummary) × (extract_tables
        (λ _. true)
        (λ _. some pages)
        (λ _. "t")
        (document ∷ [])
        []
        "d"
      ≡ ok ([] ++ new, summary))
    × All (IsTable "d" 2) new
    × (summary.tables_created ≡ sum_of page_count pages)
    × (length new ≡ sum_of page_count pages)
    × (summary.tables_failed ≡ count_if is_failed_page pages)
    × (summary.pages_with_tables ≡ count_if has_tables pages)
unfolding find_document
extract_tables-IsTable_example =
    extract_tables-IsTable (λ _. true) (λ _. some pages) (λ _. "t") (document ∷ []) [] "d" document
      pages refl refl refl

abbrev table : PdfTable
table = record {
  table_id = "t";
  document_id = "d";
  stock_id = "2330";
  period = "2024Q1";
  page = 1;
  section = "unknown";
  table_index = 0;
  table_markdown = codes "| Item | 2024 |\n| --- | --- |\n| Revenue | 1,234 |";
  row_count = 2;
  col_count = 2;
  extraction_quality = high_quality;
  requires_human_review = false;
}

extract_kpis-IsKpiReport_example :
    (r : KpiReport) × (extract_kpis float (document ∷ []) (table ∷ []) "d" ≡ ok r)
    × IsKpiReport float "d" (table ∷ []) r
unfolding find_document
extract_kpis-IsKpiReport_example =
    extract_kpis-IsKpiReport float (document ∷ []) (table ∷ []) "d" document refl refl

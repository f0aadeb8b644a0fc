-- ===== src/Kpis.antt =====
-- services/kpi_normalization/__init__.py: numbers, rows and KPIs read back from the markdown tables.
--
-- `float` is an argument: the double that Python makes of a decimal numeral.
pub mod RoundTrip
pub mod Digits
pub mod Numbers
pub mod Printed
pub mod Laws
use financial_pdf_reader.Base.{ℕ, String, Bool, true, false, not, ◌||◌, Option, none, some}
use financial_pdf_reader.Base.{List, [], ◌∷◌, map, eqb, leb, if◌then◌else◌, length, ◌==◌}
use financial_pdf_reader.Base.{nat_eq, text_eq, string_eq, contains, all, select, is_empty, is_some}
use financial_pdf_reader.Base.Decimal.{Decimal, Float, opposite}
use financial_pdf_reader.Base.Dict.{Dict}
use financial_pdf_reader.Base.Sort.{sorted}
use financial_pdf_reader.Base.Result.{◌>>=◌, ◌>>◌, Result, ok, guard, found_or}
use financial_pdf_reader.Text.{Text, codes, texts, is_in, any_in, is_space}
use financial_pdf_reader.Text.Strip.{strip_by, rstrip_by}
use financial_pdf_reader.Text.Lines.{splitlines, lines_after, split_on}
use financial_pdf_reader.Text.Numerals.{scan_number}
use financial_pdf_reader.Documents.{PdfDocument, PdfTable, Quality, high_quality}
use financial_pdf_reader.Models.{Confidence, high, medium}
use financial_pdf_reader.Ingestion.{find_document}
use mathlib.Core.Option

-- `_KPI_KEYWORDS`
abbrev pub kpi_keywords : Dict String (List Text)
kpi_keywords =
    (
      "revenue",
      texts ("營業收入" ∷ "收入淨額" ∷ "銷貨收入" ∷ "營收合計" ∷ "Revenue" ∷ "Net Revenue" ∷ "Net Sales" ∷ []),
    )
    ∷ ("gross_margin", texts ("毛利率" ∷ "銷貨毛利率" ∷ "Gross Margin" ∷ "Gross Profit Margin" ∷ []))
    ∷ (
      "operating_income",
      texts (
          "營業利益" ∷ "營業損益" ∷ "營業利益（損失）" ∷ "Operating Income" ∷ "Operating Profit"
          ∷ "Income from Operations" ∷ []),
    )
    ∷ (
      "net_income",
      texts (
          "本期淨利" ∷ "稅後淨利" ∷ "本期稅後淨利" ∷ "歸屬於母公司業主之淨利" ∷ "Net Income" ∷ "Net Profit"
          ∷ "Profit for the Period" ∷ []),
    )
    ∷ ("eps", texts ("每股盈餘" ∷ "基本每股盈餘" ∷ "每股淨利" ∷ "EPS" ∷ "Earnings Per Share" ∷ "Basic EPS" ∷ []))
    ∷ (
      "cash_and_equiv",
      texts (
          "現金及約當現金" ∷ "現金與約當現金" ∷ "期末現金及約當現金" ∷ "Cash and Cash Equivalents" ∷ "Cash & Equivalents"
          ∷ []),
    )
    ∷ (
      "total_debt",
      texts (
          "短期借款" ∷ "長期借款" ∷ "應付公司債" ∷ "一年內到期長期負債" ∷ "Short-term Borrowings" ∷ "Long-term Debt"
          ∷ "Borrowings" ∷ []),
    )
    ∷ (
      "operating_cash_flow",
      texts (
          "營業活動之現金流量" ∷ "營業活動現金流量" ∷ "來自營業活動之淨現金" ∷ "Operating Cash Flow"
          ∷ "Net Cash from Operating Activities" ∷ "Cash from Operations" ∷ []),
    )
    ∷ []

-- `_UNIT_HINTS`
abbrev pub unit_hints : List Text
unit_hints = texts ("千元" ∷ "仟元" ∷ "百萬元" ∷ "億元" ∷ "元" ∷ "新台幣千元" ∷ "USD thousands" ∷ [])

-- The cells that stand for no number.
abbrev pub blank_tokens : List Text
blank_tokens = texts ("-" ∷ "—" ∷ "－" ∷ "–" ∷ "N/A" ∷ "n/a" ∷ "--" ∷ "＊" ∷ [])

-- `t[:-1]` if the text ends with the mark.
unfoldable pub before_mark : ℕ → Text → Option Text
before_mark mark [] = none
before_mark mark (c ∷ []) = if eqb c mark then some [] else none
before_mark mark (c ∷ d ∷ s) = Option.map (λ r. c ∷ r) (before_mark mark (d ∷ s))

-- `t[1:-1]` if the text starts with the one mark and ends with the other, which is different.
unfoldable pub between_marks : ℕ → ℕ → Text → Option Text
between_marks open_mark close_mark [] = none
between_marks open_mark close_mark (c ∷ s) =
    if eqb c open_mark then before_mark close_mark s else none

-- The sign that parentheses give, and the text without them.
unfoldable pub unwrapped : Text → Bool × Text
unfolding between_marks
unwrapped t = elim (between_marks b'(' b')' t) [
  | some inner ↦ (true, inner)
  | none ↦ elim (between_marks 0xff08 0xff09 t) [ some inner ↦ (true, inner) | none ↦ (false, t) ]
]

-- The characters of "% ％".
unfoldable pub is_percent : ℕ → Bool
is_percent c = eqb c b'%' || eqb c 32 || eqb c 0xff05

unfoldable pub is_comma : ℕ → Bool
is_comma c = eqb c b',' || eqb c 0xff0c

abbrev pub number_of : Bool → Option (ℕ × ℕ × Text) → Option Decimal
number_of negative none = none
number_of negative (some (digits, places, rest)) =
    some (record { negative = negative; digits = digits; places = places })

-- `^(-?\d+(?:\.\d+)?)`
unfoldable pub signed_number : Text → Option Decimal
signed_number [] = none
signed_number (c ∷ s) =
    if eqb c b'-' then number_of true (scan_number s) else number_of false (scan_number (c ∷ s))

abbrev pub negated : Bool → Float → Float
negated negative x = if negative then opposite x else x

-- What is read once the parentheses are gone.
unfoldable pub read_number : (Decimal → Float) → Bool → Text → Option Float
unfolding rstrip_by is_percent is_comma signed_number
read_number float negative t =
    Option.map (λ d. negated negative (float d))
      (signed_number (select (λ c. not (is_comma c)) (strip_by is_space (rstrip_by is_percent t))))

unfoldable pub parse_number : (Decimal → Float) → Text → Option Float
unfolding unwrapped read_number
parse_number float text =
    let t = strip_by is_space text in
    if is_empty t || contains blank_tokens t
    then none
    else read_number float (unwrapped t).0 (unwrapped t).1

-- `detect_unit`
unfoldable pub first_hint : List Text → Text → Option Text
first_hint [] markdown = none
first_hint (hint ∷ hints) markdown =
    if is_in hint markdown then some hint else first_hint hints markdown

unfoldable pub detect_unit : Text → Option Text
unfolding first_hint
detect_unit markdown = first_hint unit_hints markdown

-- A row of dashes: every cell that is not empty is made of the characters of "-: \t".
unfoldable pub is_rule : List Text → Bool
is_rule cells = all (λ c. is_empty c || all (λ d. contains (b'-' ∷ b':' ∷ 32 ∷ 9 ∷ []) d) c) cells

-- `[c.strip() for c in line.strip("|").split("|")]`
unfoldable pub cells_of : Text → List Text
unfolding split_on
cells_of line = map (strip_by is_space) (split_on b'|' (strip_by (eqb b'|') line))

-- The loop body for one line.
unfoldable pub add_line : Text → List (List Text) → List (List Text)
unfolding cells_of
add_line raw rows =
    let line = strip_by is_space raw in
    if is_empty line || not (is_in (codes "|") line)
    then rows
    else if is_rule (cells_of line)
    then rows
    else cells_of line ∷ rows

unfoldable pub rows_of : List Text → List (List Text)
unfolding add_line
rows_of [] = []
rows_of (line ∷ lines) = add_line line (rows_of lines)

unfoldable pub parse_markdown_rows : Text → List (List Text)
unfolding rows_of lines_after
parse_markdown_rows markdown = rows_of (splitlines markdown)

-- The first cell that is a number, with its text.
unfoldable pub first_number : (Decimal → Float) → List Text → Option (Float × Text)
unfolding parse_number
first_number float [] = none
first_number float (raw ∷ cells) = elim (parse_number float raw) [
  | some value ↦ some (value, raw)
  | none ↦ first_number float cells
]

-- What the loop body finds in one row.
unfoldable pub kpi_in_row : (Decimal → Float) → List Text → List Text → Option (Float × Text)
unfolding first_number
kpi_in_row float keywords [] = none
kpi_in_row float keywords (label ∷ cells) =
    if any_in keywords label then first_number float cells else none

unfoldable pub find_kpi : (Decimal → Float) → List Text → List (List Text) → Option (Float × Text)
unfolding kpi_in_row
find_kpi float keywords [] = none
find_kpi float keywords (row ∷ rows) = elim (kpi_in_row float keywords row) [
  | some hit ↦ some hit
  | none ↦ find_kpi float keywords rows
]

unfoldable pub extract_kpi_from_markdown :
    (Decimal → Float) → Text → List Text → Option (Float × Text)
unfolding find_kpi parse_markdown_rows
extract_kpi_from_markdown float markdown keywords =
    find_kpi float keywords (parse_markdown_rows markdown)

-- The dict of one KPI.
pub record KpiHit : Type 0 where
  pub value : Float
  pub raw_text : Text
  pub unit_hint : Option Text
  pub page : ℕ
  pub table_id : String
  pub confidence : Confidence

abbrev pub confidence_of : Quality → Confidence
confidence_of high_quality = high
confidence_of _ = medium

unfoldable pub hit_of : PdfTable → Float × Text → KpiHit
unfolding detect_unit
hit_of table (value, raw) = record {
  value = value;
  raw_text = raw;
  unit_hint = detect_unit table.table_markdown;
  page = table.page;
  table_id = table.table_id;
  confidence = confidence_of table.extraction_quality;
}

-- The first table with a hit.
unfoldable pub find_hit : (Decimal → Float) → List Text → List PdfTable → Option KpiHit
unfolding extract_kpi_from_markdown hit_of
find_hit float keywords [] = none
find_hit float keywords (table ∷ tables) =
    elim (extract_kpi_from_markdown float table.table_markdown keywords) [
      | some found ↦ some (hit_of table found)
      | none ↦ find_hit float keywords tables
    ]

pub data KpiError : Type 0 where
  document_not_found : String → KpiError
  no_tables : String → KpiError

-- The dict that `extract_kpis` returns.
pub record KpiReport : Type 0 where
  pub document_id : String
  pub period : String
  pub kpis : Dict String (Option KpiHit)
  pub found_count : ℕ
  pub not_found : List String

-- `PDFTable.objects(document_id=document_id).order_by("page")`
unfoldable pub tables_by_page : String → List PdfTable → List PdfTable
unfolding sorted
tables_by_page document_id store =
    sorted (λ a b. leb a.page b.page) (select (λ t. t.document_id == document_id) store)

abbrev pub kpis_of :
    (Decimal → Float) → List PdfTable → Dict String (List Text) → Dict String (Option KpiHit)
kpis_of float tables = map (λ (kpi, keywords). (kpi, find_hit float keywords tables))

unfoldable pub kpi_report : String → String → Dict String (Option KpiHit) → KpiReport
kpi_report document_id period kpis = record {
  document_id = document_id;
  period = period;
  kpis = kpis;
  found_count = length (select (λ (k, v). is_some v) kpis);
  not_found = map (λ (k, v). k) (select (λ (k, v). not (is_some v)) kpis);
}

unfoldable pub extract_kpis :
    (Decimal → Float) → List PdfDocument → List PdfTable → String → Result KpiError KpiReport
unfolding tables_by_page find_hit
extract_kpis float docs store document_id = do
  doc ← found_or (find_document document_id docs) (document_not_found document_id)
  let tables = tables_by_page document_id store
  guard (not (is_empty tables)) (no_tables document_id)
  ok (kpi_report document_id doc.period (kpis_of float tables kpi_keywords))

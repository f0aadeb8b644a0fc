-- ===== src/Tables/Laws.antt =====
-- `extract_tables` of services/text_extraction: which tables it stores, and its counts.
use financial_pdf_reader.Base.{ℕ, suc, ◌+◌, ◌≤◌, String, ◌≡◌, refl, sym, ap, subst, ◌∙◌, Bool}
use financial_pdf_reader.Base.{true, false, not, Option, none, some, List, [], ◌∷◌, ◌++◌, All}
use financial_pdf_reader.Base.{
  All-append, length, length-append, is_empty, sum_of, count_if, arith, count_if-cons,
}
use financial_pdf_reader.Base.{if◌then◌else◌}
use mathlib.Core.List.{append_assoc, append-nil}
use financial_pdf_reader.Base.Result.{ok}
use financial_pdf_reader.Text.Lines.{join}
use financial_pdf_reader.Documents.{PdfDocument, PdfTable}
use financial_pdf_reader.Ingestion.{find_document}
use financial_pdf_reader.Classification.{is_section}
use financial_pdf_reader.Classification.Sections.{classify_chunk-is_section}
use financial_pdf_reader.Tables.{
  Row, row_line, rows_to_markdown, is_low, Extraction, table_of, add_table, add_tables, add_page,
  add_pages, TableSummary, extract_tables,
}

-- A table that was stored for the document: its page is one of `pages`, counted from 1, its section
-- is known or "unknown", it has a row, and it waits for review exactly if its quality is low.
pub record IsTable (id : String) (pages : ℕ) (t : PdfTable) : Type 0 where
  pub of_document : t.document_id ≡ id
  pub numbered : 1 ≤ t.page
  pub in_pdf : t.page ≤ pages
  pub filed : is_section t.section ≡ true
  pub has_rows : 1 ≤ t.row_count
  pub shown : is_empty t.table_markdown ≡ false
  pub reviewed : t.requires_human_review ≡ is_low t.extraction_quality

is_empty-rows_to_markdown : (rows : List Row) → is_empty (rows_to_markdown rows) ≡ is_empty rows
unfolding rows_to_markdown row_line join
is_empty-rows_to_markdown [] = refl
is_empty-rows_to_markdown (r ∷ []) = refl
is_empty-rows_to_markdown (r ∷ s ∷ rs) = refl

-- What one step adds to the state: tables that satisfy `P`, as many as it counts.
record Adds (P : PdfTable → Type 0) (created failed pages : ℕ) (x y : Extraction) : Type 0 where
  new : List PdfTable
  stored : y.tables ≡ x.tables ++ new
  all_new : All P new
  many : length new ≡ created
  made : y.tables_created ≡ x.tables_created + created
  lost : y.tables_failed ≡ x.tables_failed + failed
  seen : y.pages_with_tables ≡ x.pages_with_tables + pages

module _ {P : PdfTable → Type 0} where
  Adds-nothing : (x : Extraction) → Adds P 0 0 0 x x
  Adds-nothing x = record {
    new = [];
    stored = sym (append-nil x.tables);
    all_new = tt;
    many = refl;
    made = omega arith;
    lost = omega arith;
    seen = omega arith;
  }

  Adds-trans :
      {c d f g p q : ℕ} {x y z : Extraction}
      → Adds P c f p x y
      → Adds P d g q y z
      → Adds P (c + d) (f + g) (p + q) x z
  Adds-trans {x = x} a b = record {
    new = a.new ++ b.new;
    stored = b.stored ∙ ap (λ l. l ++ b.new) a.stored ∙ append_assoc x.tables a.new b.new;
    all_new = All-append P a.new b.new a.all_new b.all_new;
    many = omega (arith, length-append a.new b.new, a.many, b.many);
    made = omega (arith, a.made, b.made);
    lost = omega (arith, a.lost, b.lost);
    seen = omega (arith, a.seen, b.seen);
  }

-- A table of pdfplumber is stored if it has a row.
abbrev pub stored_count : List (List Row) → ℕ
stored_count ts = count_if (λ rows. not (is_empty rows)) ts

abbrev pub page_count : Option (List (List Row)) → ℕ
page_count none = 0
page_count (some ts) = stored_count ts

abbrev pub is_failed_page : Option (List (List Row)) → Bool
is_failed_page none = true
is_failed_page (some ts) = false

abbrev pub has_tables : Option (List (List Row)) → Bool
has_tables none = false
has_tables (some ts) = not (is_empty ts)

module _ (doc : PdfDocument) (id : String) (ids : ℕ → String) (pages : ℕ) where
  table_of-IsTable :
      (table_id : String) (page index : ℕ) (r : Row) (rows : List Row)
      → 1 ≤ page
      → page ≤ pages
      → IsTable id pages
          (table_of doc id table_id page index (r ∷ rows) (rows_to_markdown (r ∷ rows)))
  unfolding table_of
  table_of-IsTable table_id page index r rows low high = record {
    of_document = refl;
    numbered = low;
    in_pdf = high;
    filed = classify_chunk-is_section (λ _. none) (rows_to_markdown (r ∷ rows)) false;
    has_rows = omega arith;
    shown = is_empty-rows_to_markdown (r ∷ rows);
    reviewed = refl;
  }

  add_table-Adds :
      (page index : ℕ) (rows : List Row) (x : Extraction)
      → 1 ≤ page
      → page ≤ pages
      → Adds
          (IsTable id pages)
          (if is_empty rows then 0 else 1)
          0
          0
          x
          (add_table doc id ids page index rows x)
  unfolding add_table
  add_table-Adds page index [] x low high = Adds-nothing x
  add_table-Adds page index (r ∷ rs) x low high = rw (is_empty-rows_to_markdown (r ∷ rs)) (record {
    new =
        table_of doc id (ids x.tables_created) page index (r ∷ rs) (rows_to_markdown (r ∷ rs)) ∷ [];
    stored = refl;
    all_new = (table_of-IsTable (ids x.tables_created) page index r rs low high, tt);
    many = refl;
    made = omega arith;
    lost = omega arith;
    seen = omega arith;
  })

  add_tables-Adds :
      (page index : ℕ) (ts : List (List Row)) (x : Extraction)
      → 1 ≤ page
      → page ≤ pages
      → Adds (IsTable id pages) (stored_count ts) 0 0 x (add_tables doc id ids page index ts x)
  unfolding add_tables
  add_tables-Adds page index [] x low high = Adds-nothing x
  add_tables-Adds page index (rows ∷ ts) x low high =
      subst (λ n. Adds (IsTable id pages) n 0 0 x (add_tables doc id ids page index (rows ∷ ts) x))
        (ground arith)
        (Adds-trans (add_table-Adds page index rows x low high)
          (add_tables-Adds page (suc index) ts (add_table doc id ids page index rows x) low high))

  add_page-Adds :
      (page : ℕ) (p : Option (List (List Row))) (x : Extraction)
      → 1 ≤ page
      → page ≤ pages
      → Adds
          (IsTable id pages)
          (page_count p)
          (if is_failed_page p then 1 else 0)
          (if has_tables p then 1 else 0)
          x
          (add_page doc id ids page p x)
  unfolding add_page
  add_page-Adds page none x low high = record {
    new = [];
    stored = sym (append-nil x.tables);
    all_new = tt;
    many = refl;
    made = omega arith;
    lost = omega arith;
    seen = omega arith;
  }
  add_page-Adds page (some []) x low high = Adds-nothing x
  add_page-Adds page (some (t ∷ ts)) x low high =
      let y = record x { pages_with_tables = suc x.pages_with_tables } in
      let a = add_tables-Adds page 0 (t ∷ ts) y low high in
      record {
        new = a.new;
        stored = a.stored;
        all_new = a.all_new;
        many = a.many;
        made = a.made;
        lost = a.lost;
        seen = omega (arith, a.seen);
      }

  add_pages-Adds :
      (page : ℕ) (ps : List (Option (List (List Row)))) (x : Extraction)
      → 1 ≤ page
      → page + length ps ≤ suc pages
      → Adds
          (IsTable id pages)
          (sum_of page_count ps)
          (count_if is_failed_page ps)
          (count_if has_tables ps)
          x
          (add_pages doc id ids page ps x)
  unfolding add_pages
  add_pages-Adds page [] x low high = Adds-nothing x
  add_pages-Adds page (p ∷ ps) x low high =
      let a = add_page-Adds page p x low (omega arith) in
      let b =
        add_pages-Adds (suc page) ps (add_page doc id ids page p x) (omega arith) (omega arith) in
      subst
        (λ f.
          Adds (IsTable id pages) (sum_of page_count (p ∷ ps)) f (count_if has_tables (p ∷ ps)) x
            (add_pages doc id ids page (p ∷ ps) x))
        (sym (count_if-cons is_failed_page p ps))
        (subst
          (λ g.
            Adds (IsTable id pages) (sum_of page_count (p ∷ ps))
              ((if is_failed_page p then 1 else 0) + count_if is_failed_page ps) g x
              (add_pages doc id ids page (p ∷ ps) x))
          (sym (count_if-cons has_tables p ps)) (Adds-trans a b))

-- For a stored document whose file is there and can be read, the extraction returns a result: the
-- stored tables with new ones behind them, each of them of this document, on one of its pages,
-- filed under a known section or "unknown", with a row, and marked for review exactly if its quality
-- is low. There is one for each extracted table that has a row, which is what the summary counts; the
-- failures are the pages that pdfplumber could not read, which leave no table, and no more.
pub extract_tables-IsTable :
    (exists : String → Bool) (open_pdf : String → Option (List (Option (List (List Row)))))
    (ids : ℕ → String) (docs : List PdfDocument) (store : List PdfTable) (id : String)
    (doc : PdfDocument) (ps : List (Option (List (List Row))))
    → find_document id docs ≡ some doc
    → exists doc.file_path ≡ true
    → open_pdf doc.file_path ≡ some ps
    → (new : List PdfTable) × (summary : TableSummary) × (extract_tables exists open_pdf ids docs
          store id
        ≡ ok (store ++ new, summary))
      × All (IsTable id (length ps)) new
      × (summary.tables_created ≡ sum_of page_count ps)
      × (length new ≡ sum_of page_count ps)
      × (summary.tables_failed ≡ count_if is_failed_page ps)
      × (summary.pages_with_tables ≡ count_if has_tables ps)
unfolding extract_tables
extract_tables-IsTable exists open_pdf ids docs store id doc ps found there read =
    let start : Extraction = record {
      tables = store;
      tables_created = 0;
      tables_failed = 0;
      pages_with_tables = 0;
    } in
    let a = add_pages-Adds doc id ids (length ps) 1 ps start (omega arith) (omega arith) in
    let x = add_pages doc id ids 1 ps start in
    let summary : TableSummary = record {
      document_id = id;
      tables_created = x.tables_created;
      tables_failed = x.tables_failed;
      pages_with_tables = x.pages_with_tables;
    } in
    (
      a.new,
      summary,
      rw found (rw there (rw read (ap (λ l. ok (l, summary)) a.stored))),
      a.all_new,
      omega (arith, a.made),
      a.many,
      omega (arith, a.lost),
      omega (arith, a.seen),
    )

-- ===== src/Documents.antt =====
-- models/documents/__init__.py: what the services store of a PDF. Time stamps are left out.
pub mod Shown
use financial_pdf_reader.Base.{ℕ, String, Bool, true, false}
use financial_pdf_reader.Text.{Text}

-- `PDFDocument.status`
pub data DocumentStatus : Type 0 where
  uploaded ingesting completed failed : DocumentStatus

abbrev pub is_completed : DocumentStatus → Bool
is_completed completed = true
is_completed _ = false

-- `PDFDocument`; `document_type` and `industry_type` are passed on and never tested here.
pub record PdfDocument : Type 0 where
  pub document_id : String
  pub stock_id : String
  pub company_name : Text
  pub period : String
  pub industry_type : String
  pub file_path : String
  pub total_pages : ℕ
  pub status : DocumentStatus

-- `PDFChunk`; `page` is counted from 1, and a section is "unknown" until it is classified.
pub record PdfChunk : Type 0 where
  pub chunk_id : String
  pub document_id : String
  pub stock_id : String
  pub period : String
  pub page : ℕ
  pub section : String
  pub text : Text
  pub char_count : ℕ

-- `PDFTable.extraction_quality`
pub data Quality : Type 0 where
  high_quality medium_quality low_quality failed_quality : Quality

-- `PDFTable`
pub record PdfTable : Type 0 where
  pub table_id : String
  pub document_id : String
  pub stock_id : String
  pub period : String
  pub page : ℕ
  pub section : String
  pub table_index : ℕ
  pub table_markdown : Text
  pub row_count : ℕ
  pub col_count : ℕ
  pub extraction_quality : Quality
  pub requires_human_review : Bool

-- ===== src/Coverage.antt =====
-- services/disclosure_coverage/__init__.py: which of the 14 disclosures a report makes.
--
-- The language model is an argument, from the document and the chunks of its prompt to the text of its
-- answer, and so is `json.loads`, which gives the `items` of the JSON block or `none`. An exception of
-- the call of the model is left out, and so is JSON `null`.
pub mod Laws
use financial_pdf_reader.Base.{ℕ}
use financial_pdf_reader.Base.{String}
use financial_pdf_reader.Base.{not, Option, none, some}
use financial_pdf_reader.Base.{List, [], ◌∷◌, map, leb}
use financial_pdf_reader.Base.{or_default, take, all, contains}
use financial_pdf_reader.Base.{is_empty, select, count_if}
use financial_pdf_reader.Base.{◌==◌, nat_eq, string_eq, text_eq}
use financial_pdf_reader.Text.{Text}
use financial_pdf_reader.Text.Blocks.{json_block}
use financial_pdf_reader.Documents.Shown.{build_chunks_text}
use financial_pdf_reader.Base.Dict
use financial_pdf_reader.Base.Dict.{Dict}
use financial_pdf_reader.Base.Sort.{sorted}
use financial_pdf_reader.Base.Result.{◌>>◌, ◌>>=◌, Result, ok, raised, guard, found_or}
use financial_pdf_reader.Documents.{PdfDocument, PdfChunk, DocumentStatus, is_completed}

-- `DISCLOSURE_REGISTRY`
abbrev pub disclosure_registry : Dict String String
disclosure_registry =
    ("related_party_transactions", "關係人交易")
    ∷ ("commitments_and_contingencies", "承諾事項與或有負債")
    ∷ ("subsequent_events", "後續事項")
    ∷ ("business_combination", "企業合併")
    ∷ ("major_customers", "主要客戶集中度")
    ∷ ("segment_information", "部門資訊")
    ∷ ("financial_risk_fx", "外幣匯率風險")
    ∷ ("financial_risk_credit", "信用風險")
    ∷ ("financial_risk_liquidity", "流動性風險")
    ∷ ("key_accounting_estimates", "關鍵會計估計")
    ∷ ("inventory_valuation", "存貨評價")
    ∷ ("income_tax", "所得稅")
    ∷ ("convertible_bonds", "可轉換公司債")
    ∷ ("dividends", "股利分配")
    ∷ []

-- One entry of the answer's `items`.
pub record RawItem : Type 0 where
  pub key : Option String
  pub status : Option String
  pub evidence_pages : Option (List Text)
  pub note : Option Text

-- `DisclosureCoverageItem`
pub record CoverageItem : Type 0 where
  pub key : String
  pub label_zh : String
  pub status : String
  pub evidence_pages : List Text
  pub note : Text

-- `DisclosureCoverageReport`
pub record CoverageReport : Type 0 where
  pub document_id : String
  pub stock_id : String
  pub period : String
  pub items : List CoverageItem
  pub found_count : ℕ
  pub found_incomplete_count : ℕ
  pub not_found_count : ℕ
  pub not_applicable_count : ℕ
  pub total_count : ℕ

pub data CoverageError : Type 0 where
  document_missing : String → CoverageError
  not_ingested : DocumentStatus → CoverageError
  no_chunks_found : CoverageError
  unreadable_answer : Text → CoverageError
  key_error invalid_status : CoverageError

-- `STATUS_CHOICES`
abbrev pub status_choices : List String
status_choices = "found" ∷ "found_incomplete" ∷ "not_found" ∷ "ambiguous" ∷ "not_applicable" ∷ []

-- `{item["key"]: item for item in items}`: the last of several items with a key stays.
unfoldable pub items_by_key :
    List RawItem → Dict String RawItem → Result CoverageError (Dict String RawItem)
items_by_key [] d = ok d
items_by_key (item ∷ items) d = do
  k ← found_or item.key key_error
  items_by_key items (Dict.insert k item d)

-- `items_by_key.get(key, {})`
abbrev pub raw_of : Option RawItem → RawItem
raw_of none = record { key = none; status = none; evidence_pages = none; note = none }
raw_of (some raw) = raw

unfoldable pub coverage_item : Dict String RawItem → String × String → CoverageItem
coverage_item d (key, label) =
    let raw = raw_of (Dict.lookup key d) in
    record {
      key = key;
      label_zh = label;
      status = or_default raw.status "ambiguous";
      evidence_pages = or_default raw.evidence_pages [];
      note = or_default raw.note [];
    }

abbrev pub count_status : String → List CoverageItem → ℕ
count_status s items = count_if (λ i. i.status == s) items

unfoldable pub coverage_report : PdfDocument → String → List CoverageItem → CoverageReport
coverage_report doc id items = record {
  document_id = id;
  stock_id = doc.stock_id;
  period = doc.period;
  items = items;
  found_count = count_status "found" items;
  found_incomplete_count = count_status "found_incomplete" items;
  not_found_count = count_status "not_found" items;
  not_applicable_count = count_status "not_applicable" items;
  total_count = 14;
}

-- `report.save()`, which validates the status of every item. The other fields of a report hold what
-- their field types ask for, since pages and notes are texts here.
unfoldable pub save_coverage : CoverageReport → Result CoverageError CoverageReport
save_coverage r = do
  guard (all (λ i. contains status_choices i.status) r.items) invalid_status
  ok r

-- `PDFChunk.objects(document_id=document_id).order_by("page").limit(60)`
abbrev pub first_chunks : String → List PdfChunk → List PdfChunk
first_chunks id store =
    take 60 (sorted (λ a b. leb a.page b.page) (select (λ c. c.document_id == id) store))

-- The values that the prompt is filled with.
pub record CoveragePrompt : Type 0 where
  pub chunks_text : Text
  pub company_name : Text
  pub stock_id : String
  pub period : String

unfoldable pub coverage_prompt : PdfDocument → List PdfChunk → CoveragePrompt
coverage_prompt doc chunks = record {
  chunks_text = build_chunks_text chunks;
  company_name = doc.company_name;
  stock_id = doc.stock_id;
  period = doc.period;
}

-- The `items` of the JSON object in an answer.
unfoldable pub read_items :
    (Text → Option (List RawItem)) → Text → Result CoverageError (List RawItem)
read_items loads raw = elim (json_block raw) [
  | none ↦ raised (unreadable_answer (take 400 raw))
  | some block ↦ found_or (loads block) (unreadable_answer (take 400 raw))
]

unfoldable pub check_disclosure_coverage :
    (CoveragePrompt → Text)
    → (Text → Option (List RawItem))
    → (String → Option PdfDocument)
    → List PdfChunk
    → String
    → Result CoverageError CoverageReport
check_disclosure_coverage ask loads find_document store id = do
  doc ← found_or (find_document id) (document_missing id)
  guard (is_completed doc.status) (not_ingested doc.status)
  guard (not (is_empty (first_chunks id store))) no_chunks_found
  raw ← read_items loads (ask (coverage_prompt doc (first_chunks id store)))
  d ← items_by_key raw []
  save_coverage (coverage_report doc id (map (coverage_item d) disclosure_registry))

-- ===== src/Classification.antt =====
-- services/classification/__init__.py: the section of a chunk, by rules and by an LLM.
--
-- The call of the LLM is an argument: it takes the prompt's text and gives an answer, or `none`
-- where the code catches an exception.
pub mod Rules
pub mod Sections
pub mod Store
use financial_pdf_reader.Base.{ℕ, suc}
use financial_pdf_reader.Base.{String}
use financial_pdf_reader.Base.{Bool, ◌||◌, Option, none, some}
use financial_pdf_reader.Base.{List, [], ◌∷◌, ltb, leb, if◌then◌else◌}
use financial_pdf_reader.Base.{length, take}
use financial_pdf_reader.Base.{is_empty, select, count_if}
use financial_pdf_reader.Base.{◌==◌, nat_eq, string_eq, text_eq, contains}
use financial_pdf_reader.Text.{Text, codes, texts, lower, is_in}
use financial_pdf_reader.Text.{is_space}
use financial_pdf_reader.Text.Strip.{strip_by}
use financial_pdf_reader.Base.Dict
use financial_pdf_reader.Base.Dict.{Dict, insert, lookup, count_of}
use financial_pdf_reader.Base.Sort.{sorted}
use financial_pdf_reader.Base.Result.{◌>>◌, ◌>>=◌, Result, ok, raised, found_or, guard}
use financial_pdf_reader.Documents.{PdfChunk}

-- `SECTIONS`
abbrev pub sections : List String
sections =
    "營收" ∷ "毛利率" ∷ "營業利益" ∷ "淨利" ∷ "EPS" ∷ "存貨" ∷ "應收帳款" ∷ "現金流" ∷ "資本支出" ∷ "負債" ∷ "匯率影響" ∷ "產能"
    ∷ "稼動率" ∷ "客戶需求" ∷ "產業展望" ∷ "風險因素" ∷ "重大會計估計" ∷ "會計政策變更" ∷ "管理層展望" ∷ "董事會說明" ∷ []

-- `SECTION_KEYWORDS`
abbrev pub section_keywords : Dict String (List Text)
section_keywords =
    ("營收", texts ("營業收入" ∷ "營收" ∷ "revenue" ∷ "net revenue" ∷ "銷貨收入" ∷ "淨收入" ∷ []))
    ∷ ("毛利率", texts ("毛利" ∷ "毛利率" ∷ "gross profit" ∷ "gross margin" ∷ "銷貨成本" ∷ []))
    ∷ ("營業利益", texts ("營業利益" ∷ "營業損益" ∷ "operating income" ∷ "operating profit" ∷ "營業費用" ∷ []))
    ∷ ("淨利", texts ("本期淨利" ∷ "稅後淨利" ∷ "淨損益" ∷ "net income" ∷ "net profit" ∷ "歸屬於母公司" ∷ []))
    ∷ ("EPS", texts ("每股盈餘" ∷ "每股淨利" ∷ "earnings per share" ∷ "eps" ∷ "基本每股" ∷ []))
    ∷ ("存貨", texts ("存貨" ∷ "庫存" ∷ "inventory" ∷ "在製品" ∷ "製成品" ∷ "原料" ∷ []))
    ∷ ("應收帳款", texts ("應收帳款" ∷ "應收票據" ∷ "accounts receivable" ∷ "trade receivable" ∷ "應收款項" ∷ []))
    ∷ ("現金流", texts ("現金流量" ∷ "cash flow" ∷ "營業活動" ∷ "投資活動" ∷ "融資活動" ∷ "自由現金流" ∷ []))
    ∷ ("資本支出", texts ("資本支出" ∷ "capital expenditure" ∷ "capex" ∷ "購置不動產" ∷ "廠房及設備" ∷ []))
    ∷ ("負債", texts ("負債" ∷ "借款" ∷ "應付帳款" ∷ "debt" ∷ "liability" ∷ "長期負債" ∷ "短期借款" ∷ []))
    ∷ (
      "匯率影響",
      texts ("匯率" ∷ "外幣" ∷ "匯兌" ∷ "exchange rate" ∷ "foreign currency" ∷ "美元" ∷ "匯兌損益" ∷ []),
    )
    ∷ ("產能", texts ("產能" ∷ "capacity" ∷ "晶圓" ∷ "wafer" ∷ "fab" ∷ "擴產" ∷ "新廠" ∷ []))
    ∷ ("稼動率", texts ("稼動率" ∷ "utilization" ∷ "產能利用率" ∷ "稼働率" ∷ []))
    ∷ ("客戶需求", texts ("客戶需求" ∷ "customer demand" ∷ "終端需求" ∷ "下游" ∷ "庫存調整" ∷ "拉貨" ∷ []))
    ∷ ("產業展望", texts ("產業展望" ∷ "市場展望" ∷ "industry outlook" ∷ "半導體" ∷ "市場趨勢" ∷ "景氣" ∷ []))
    ∷ ("風險因素", texts ("風險" ∷ "risk" ∷ "不確定性" ∷ "uncertainty" ∷ "地緣政治" ∷ "供應鏈風險" ∷ []))
    ∷ ("重大會計估計", texts ("重大會計估計" ∷ "關鍵估計" ∷ "critical accounting" ∷ "商譽減損" ∷ "資產減損" ∷ []))
    ∷ ("會計政策變更", texts ("會計政策" ∷ "accounting policy" ∷ "新準則" ∷ "ifrs" ∷ "會計原則變更" ∷ []))
    ∷ ("管理層展望", texts ("展望" ∷ "outlook" ∷ "guidance" ∷ "預期" ∷ "下季" ∷ "下半年" ∷ "未來" ∷ []))
    ∷ ("董事會說明", texts ("董事會" ∷ "board" ∷ "股利" ∷ "dividend" ∷ "股東會" ∷ "重大決議" ∷ []))
    ∷ []

-- `sum(1 for kw in keywords if kw.lower() in lower)`
unfoldable pub score : Text → List Text → ℕ
score text keywords = count_if (λ kw. is_in (lower kw) (lower text)) keywords

-- The dict `scores`: the sections with a positive score, in the order of the table.
unfoldable pub scores : Text → Dict String (List Text) → Dict String ℕ
scores text [] = []
scores text ((section, keywords) ∷ table) =
    let rest = scores text table in
    if ltb 0 (score text keywords) then (section, score text keywords) ∷ rest else rest

-- `max(scores, key=...)`: the first of the entries with the greatest value.
unfoldable pub best_from : String → ℕ → Dict String ℕ → String
best_from section n [] = section
best_from section n ((s, m) ∷ d) = if ltb n m then best_from s m d else best_from section n d

abbrev pub best_of : Dict String ℕ → Option String
best_of [] = none
best_of ((s, n) ∷ d) = some (best_from s n d)

unfoldable pub classify_by_rule : Text → Option String
unfolding scores best_from
classify_by_rule text = best_of (scores text section_keywords)

-- `result if result in SECTIONS else "unknown"`
unfoldable pub known_section : List String → Text → String
known_section [] result = "unknown"
known_section (s ∷ names) result = if codes s == result then s else known_section names result

-- What is made of the answer, or of an exception.
abbrev pub section_from : Option Text → String
section_from none = "unknown"
section_from (some answer) = known_section sections (strip_by is_space answer)

unfoldable pub classify_by_llm : (Text → Option Text) → Text → String
classify_by_llm ask text = section_from (ask (take 800 text))

-- The second component of what `classify_chunk` returns.
pub data Method : Type 0 where
  rule llm fallback : Method

-- The rest of `classify_chunk`, from what the rules found.
abbrev pub after_rule : (Text → Option Text) → Text → Bool → Option String → String × Method
after_rule ask text use_llm_fallback (some section) = (section, rule)
after_rule ask text use_llm_fallback none =
    if use_llm_fallback then (classify_by_llm ask text, llm) else ("unknown", fallback)

unfoldable pub classify_chunk : (Text → Option Text) → Text → Bool → String × Method
classify_chunk ask text use_llm_fallback =
    after_rule ask text use_llm_fallback (classify_by_rule text)

pub data ClassifyError : Type 0 where
  no_chunks : String → ClassifyError
  invalid_section : String → ClassifyError
  chunk_not_found : String → ClassifyError

-- `chunk.save()` on a store of chunks by their identifier.
unfoldable pub save_chunk : PdfChunk → List PdfChunk → List PdfChunk
save_chunk c [] = []
save_chunk c (d ∷ store) =
    if c.chunk_id == d.chunk_id then c ∷ save_chunk c store else d ∷ save_chunk c store

-- The counts of `stats` by method.
pub record Stats : Type 0 where
  pub by_rule : ℕ
  pub by_llm : ℕ
  pub by_fallback : ℕ

abbrev pub count_method : Method → Stats → Stats
count_method rule st = record st { by_rule = suc st.by_rule }
count_method llm st = record st { by_llm = suc st.by_llm }
count_method fallback st = record st { by_fallback = suc st.by_fallback }

-- What the loop of `classify_document` changes.
pub record Progress : Type 0 where
  pub store : List PdfChunk
  pub stats : Stats
  pub section_counts : Dict String ℕ

-- One round of the loop.
unfoldable pub classify_step : (Text → Option Text) → Bool → PdfChunk → Progress → Progress
unfolding insert lookup
classify_step ask use_llm_fallback chunk p =
    let found = classify_chunk ask chunk.text use_llm_fallback in
    record {
      store = save_chunk (record chunk { section = found.0 }) p.store;
      stats = count_method found.1 p.stats;
      section_counts =
          insert (found.0) (suc (count_of (found.0) p.section_counts)) p.section_counts;
    }

unfoldable pub classify_loop : (Text → Option Text) → Bool → List PdfChunk → Progress → Progress
unfolding classify_step
classify_loop ask use_llm_fallback [] p = p
classify_loop ask use_llm_fallback (c ∷ cs) p =
    classify_loop ask use_llm_fallback cs (classify_step ask use_llm_fallback c p)

-- The dict that `classify_document` returns.
pub record Classification : Type 0 where
  pub document_id : String
  pub total_chunks : ℕ
  pub stats : Stats
  pub unknown : ℕ
  pub section_distribution : Dict String ℕ

abbrev pub chunks_of : String → List PdfChunk → List PdfChunk
chunks_of id store = sorted (λ a b. leb a.page b.page) (select (λ c. c.document_id == id) store)

abbrev pub start : List PdfChunk → Progress
start store = record {
  store = store;
  stats = record { by_rule = 0; by_llm = 0; by_fallback = 0 };
  section_counts = [];
}

abbrev pub report_of : String → ℕ → Progress → Classification
report_of id n p = record {
  document_id = id;
  total_chunks = n;
  stats = p.stats;
  unknown = count_of "unknown" p.section_counts;
  section_distribution = sorted (λ (_, m) (_, n). leb n m) p.section_counts;
}

unfoldable pub classify_document :
    (Text → Option Text)
    → String
    → Bool
    → List PdfChunk
    → Result ClassifyError (Classification × List PdfChunk)
unfolding classify_loop sorted
classify_document ask id use_llm_fallback store =
    let chunks = chunks_of id store in
    let p = classify_loop ask use_llm_fallback chunks (start store) in
    if is_empty chunks then raised (no_chunks id) else ok (report_of id (length chunks) p, p.store)

-- A section that may be stored.
abbrev pub is_section : String → Bool
is_section s = contains sections s || s == "unknown"

-- `PDFChunk.objects(chunk_id=chunk_id).first()`
unfoldable pub find_chunk : String → List PdfChunk → Option PdfChunk
find_chunk id [] = none
find_chunk id (c ∷ store) = if c.chunk_id == id then some c else find_chunk id store

-- The old section, and the store after the correction.
unfoldable pub manual_override :
    String → String → List PdfChunk → Result ClassifyError (String × List PdfChunk)
unfolding find_chunk save_chunk
manual_override id section store = do
  guard (is_section section) (invalid_section section)
  chunk ← found_or (find_chunk id store) (chunk_not_found id)
  ok (chunk.section, save_chunk (record chunk { section = section }) store)

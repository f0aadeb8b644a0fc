-- ===== src/Ingestion.antt =====
-- services/pdf_ingestion/__init__.py: cutting pages into chunks, and the ingestion of a document.
--
-- `chunk_page` loops while text is left; the model gives it fuel, and `none` means that the fuel
-- ran out. Reading the PDF is pdfplumber's part: the pages it yields are an argument.
pub mod Chunks
pub mod Pieces
pub mod Documents
use financial_pdf_reader.Base.{ℕ, zero, suc, ◌+◌, ◌*◌}
use financial_pdf_reader.Base.{String}
use financial_pdf_reader.Base.{Bool, false, not, Option, none, some}
use financial_pdf_reader.Base.{List, [], ◌∷◌, ◌++◌, map, ltb, eqb, if◌then◌else◌}
use financial_pdf_reader.Base.{length, take, drop}
use financial_pdf_reader.Base.{is_empty}
use financial_pdf_reader.Base.{◌==◌, nat_eq, string_eq, text_eq}
use financial_pdf_reader.Text.{Text, texts}
use financial_pdf_reader.Text.{is_space}
use financial_pdf_reader.Text.Strip.{strip_by, lstrip_by, rstrip_by}
use mathlib.Core.Option
use financial_pdf_reader.Base.Result.{Result, ok, raised}
use financial_pdf_reader.Documents.{
  PdfDocument, PdfChunk, DocumentStatus, ingesting, completed, failed,
}
use financial_pdf_reader.Classification.{classify_chunk}

pub record ChunkData : Type 0 where
  pub page : ℕ
  pub text : Text

-- `segment.rfind("\n")`, with `none` for -1.
unfoldable pub rfind_newline : Text → Option ℕ
rfind_newline [] = none
rfind_newline (c ∷ s) = elim (rfind_newline s) [
  | some i ↦ some (suc i)
  | none ↦ if eqb c 10 then some 0 else none
]

-- Where a text that is too long is cut: at the last line break of the segment, if that lies in its
-- second half, and else at the limit.
unfoldable pub break_at : ℕ → Text → ℕ
break_at max_chars segment = elim (rfind_newline segment) [
  | none ↦ max_chars
  | some i ↦ if ltb (2 * i) max_chars then max_chars else i
]

-- `if segment: chunks.append(...)`
abbrev pub push_segment : ℕ → Text → List ChunkData → List ChunkData
push_segment page segment rest =
    if is_empty segment then rest else record { page = page; text = segment } ∷ rest

abbrev pub push_some : ℕ → Text → Option (List ChunkData) → Option (List ChunkData)
push_some page segment none = none
push_some page segment (some rest) = some (push_segment page segment rest)

-- The loop of `chunk_page`.
unfoldable pub chunk_loop : ℕ → ℕ → ℕ → Text → Option (List ChunkData)
unfolding rfind_newline break_at lstrip_by rstrip_by is_space
chunk_loop zero page max_chars text = none
chunk_loop (suc fuel) page max_chars [] = some []
chunk_loop (suc fuel) page max_chars (c ∷ s) =
    let cut = break_at max_chars (take max_chars (c ∷ s)) in
    let rest = chunk_loop fuel page max_chars (strip_by is_space (drop cut (c ∷ s))) in
    if ltb max_chars (length (c ∷ s))
    then push_some page (strip_by is_space (take cut (c ∷ s))) rest
    else some (push_segment page (take max_chars (c ∷ s)) [])

unfoldable pub chunk_page : ℕ → Text → ℕ → Option (List ChunkData)
unfolding chunk_loop
chunk_page page text max_chars = chunk_loop (suc (length text)) page max_chars text

abbrev pub join_chunks : Option (List ChunkData) → Option (List ChunkData) → Option (List ChunkData)
join_chunks none _ = none
join_chunks (some xs) none = none
join_chunks (some xs) (some ys) = some (xs ++ ys)

-- `chunk_page` at its default limit, page after page, from the number of the first.
unfoldable pub chunk_pages : ℕ → List Text → Option (List ChunkData)
chunk_pages page [] = some []
chunk_pages page (text ∷ texts) =
    join_chunks (chunk_page page text 1500) (chunk_pages (suc page) texts)

pub data IngestError : Type 0 where
  document_not_found : String → IngestError
  file_missing : String → IngestError
  ingestion_failed : IngestError

-- The dict that `ingest_pdf` returns.
pub record IngestSummary : Type 0 where
  pub document_id : String
  pub pages_extracted : ℕ
  pub chunks_created : ℕ

-- The two collections that an ingestion changes.
pub record Store : Type 0 where
  pub documents : List PdfDocument
  pub chunks : List PdfChunk

-- `PDFDocument.objects(document_id=document_id).first()`
unfoldable pub find_document : String → List PdfDocument → Option PdfDocument
find_document id [] = none
find_document id (d ∷ docs) = if d.document_id == id then some d else find_document id docs

-- `doc.save()`
unfoldable pub save_document : PdfDocument → List PdfDocument → List PdfDocument
save_document doc [] = []
save_document doc (d ∷ docs) =
    if doc.document_id == d.document_id
    then doc ∷ save_document doc docs
    else d ∷ save_document doc docs

abbrev pub set_status : DocumentStatus → PdfDocument → Store → Store
set_status status doc st = record st {
  documents = save_document (record doc { status = status }) st.documents;
}

-- The chunk that is stored for a piece of a page; `fresh` is what `uuid4` gives. The LLM is not
-- asked.
unfoldable pub stored_chunk : PdfDocument → String → String → ChunkData → PdfChunk
stored_chunk doc id fresh c = record {
  chunk_id = fresh;
  document_id = id;
  stock_id = doc.stock_id;
  period = doc.period;
  page = c.page;
  section = (classify_chunk (λ _. none) c.text false).0;
  text = c.text;
  char_count = length c.text;
}

unfoldable pub stored_chunks : PdfDocument → String → (ℕ → String) → List ChunkData → List PdfChunk
unfolding stored_chunk
stored_chunks doc id ids [] = []
stored_chunks doc id ids (c ∷ cs) =
    stored_chunk doc id (ids 0) c ∷ stored_chunks doc id (λ n. ids (suc n)) cs

-- The end of the `try`: the chunks are stored and the document is completed.
unfoldable pub complete_document :
    PdfDocument
    → String
    → (ℕ → String)
    → List Text
    → Store
    → List ChunkData
    → Result IngestError IngestSummary × Store
complete_document doc id ids pages st cs = (
  ok (record { document_id = id; pages_extracted = length pages; chunks_created = length cs }),
  record {
    documents =
        save_document (record doc { status = completed; total_pages = length pages }) st.documents;
    chunks = st.chunks ++ stored_chunks doc id ids cs;
  },
)

-- The `try` of `ingest_pdf`, from the texts of the pages that pdfplumber reads, if it does.
unfoldable pub ingest_pages :
    PdfDocument
    → String
    → (ℕ → String)
    → Store
    → Option (List Text)
    → Option (Result IngestError IngestSummary × Store)
unfolding complete_document
ingest_pages doc id ids st none = some (raised ingestion_failed, set_status failed doc st)
ingest_pages doc id ids st (some texts) =
    let pages = map (strip_by is_space) texts in
    Option.map (complete_document doc id ids pages st) (chunk_pages 1 pages)

-- The rest of `ingest_pdf` once the query has an answer.
unfoldable pub ingest_found :
    (String → Bool)
    → (String → Option (List Text))
    → (ℕ → String)
    → String
    → Store
    → Option PdfDocument
    → Option (Result IngestError IngestSummary × Store)
unfolding ingest_pages
ingest_found exists extract ids id st none = some (raised (document_not_found id), st)
ingest_found exists extract ids id st (some doc) =
    if not (exists doc.file_path)
    then some (raised (file_missing doc.file_path), set_status failed doc st)
    else ingest_pages doc id ids (set_status ingesting doc st) (extract doc.file_path)

-- `exists` and `extract` are the file system and pdfplumber: `none` where reading raises.
unfoldable pub ingest_pdf :
    (String → Bool)
    → (String → Option (List Text))
    → (ℕ → String)
    → String
    → Store
    → Option (Result IngestError IngestSummary × Store)
unfolding ingest_found find_document
ingest_pdf exists extract ids id st =
    ingest_found exists extract ids id st (find_document id st.documents)

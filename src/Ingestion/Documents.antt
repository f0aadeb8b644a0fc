-- ===== src/Ingestion/Documents.antt =====
-- The ingestion of a document: its status, and the chunks that are stored.
use financial_pdf_reader.Base.{ℕ}
use financial_pdf_reader.Base.{String, ◌≡◌, refl, sym, ap, ◌∙◌, ◌⊎◌, inl, inr}
use financial_pdf_reader.Base.{Bool, true, false, Option, none, some}
use financial_pdf_reader.Base.{List, [], ◌∷◌, ◌++◌, map, arith}
use financial_pdf_reader.Base.{Bool-cases, Option-cases, is_some, length}
use financial_pdf_reader.Base.{All, ◌==◌, eq_iff, nat_eq, string_eq, text_eq}
use financial_pdf_reader.Text.{Text}
use financial_pdf_reader.Text.{is_space}
use financial_pdf_reader.Text.Strip.{strip_by}
use mathlib.Core.Option
use financial_pdf_reader.Base.{concat_map}
use financial_pdf_reader.Text.Strip.{visible}
use financial_pdf_reader.Base.Result.{Result, ok, raised}
use financial_pdf_reader.Documents.{PdfDocument, PdfChunk, ingesting, completed, failed}
use financial_pdf_reader.Ingestion.{
  IngestError, document_not_found, file_missing, ingestion_failed, IngestSummary, Store,
  find_document, save_document, set_status, stored_chunks, complete_document, ingest_pages,
  ingest_found, ingest_pdf,
}
use financial_pdf_reader.Ingestion.Pieces.{
  chunk_pages-Pieces, IsStored, stored_chunks-IsStored, stored_chunks-text, stored_chunks-length,
}

find_document-id :
    (id : String) (docs : List PdfDocument) (doc : PdfDocument)
    → find_document id docs ≡ some doc
    → doc.document_id ≡ id
unfolding find_document
find_document-id id [] doc e = cc
find_document-id id (d ∷ docs) doc e = elim (Bool-cases (d.document_id == id)) [
  | inl same ↦ ground (arith, eq_iff d.document_id id)
  | inr other ↦ find_document-id id docs doc (ground arith)
]

-- What is saved is found.
find_document-save_document :
    (id : String) (doc : PdfDocument) (docs : List PdfDocument)
    → doc.document_id ≡ id
    → is_some (find_document id docs) ≡ true
    → find_document id (save_document doc docs) ≡ some doc
unfolding find_document save_document
find_document-save_document id doc [] e h = cc
find_document-save_document id doc (d ∷ docs) e h = ground (
  arith,
  eq_iff doc.document_id d.document_id,
  eq_iff d.document_id id,
  eq_iff doc.document_id id,
  find_document-save_document id doc docs,
)

-- The texts of the pages as `extract_pages` gives them.
abbrev pub pages_of : List Text → List Text
pages_of texts = map (strip_by is_space) texts

-- What an ingestion that raises leaves: no chunk, and a failed document.
abbrev Failed : String → PdfDocument → Store → Store → Type 0
Failed id doc before after =
    (after.chunks ≡ before.chunks)
    × (find_document id after.documents ≡ some (record doc { status = failed }))

-- What an ingestion that returns leaves: a completed document, and new chunks that are well formed
-- and hold the texts of the pages up to white space.
abbrev Completed : String → PdfDocument → List Text → Store → IngestSummary → Store → Type 0
Completed id doc texts before r after =
    (fresh : List PdfChunk) × (after.chunks ≡ before.chunks ++ fresh)
    × All (IsStored id (length (pages_of texts))) fresh
    × (r.chunks_created ≡ length fresh)
    × (visible is_space (concat_map (λ c. c.text) fresh)
        ≡ visible is_space (concat_map (λ t. t) (pages_of texts)))
    × (find_document id after.documents
        ≡ some (record doc { status = completed; total_pages = length (pages_of texts) }))

-- Saving twice leaves the second record.
find_document-saved_twice :
    (id : String) (first second : PdfDocument) (docs : List PdfDocument)
    → first.document_id ≡ id
    → second.document_id ≡ id
    → is_some (find_document id docs) ≡ true
    → find_document id (save_document second (save_document first docs)) ≡ some second
find_document-saved_twice id first second docs e f h =
    find_document-save_document id second (save_document first docs) f
      (ap is_some (find_document-save_document id first docs e h))

module _ (exists : String → Bool) (extract : String → Option (List Text)) (ids : ℕ → String)
    (id : String) (st : Store) where
  -- What `ingest_pdf` does for a document it finds, by what the file system and pdfplumber answer.
  abbrev pub Outcome : PdfDocument → Result IngestError IngestSummary → Store → Type 0
  Outcome doc r after =
      (exists doc.file_path ≡ false)
        × (r ≡ raised (file_missing doc.file_path))
        × Failed id doc st after
      ⊎ (exists doc.file_path ≡ true)
        × (extract doc.file_path ≡ none)
        × (r ≡ raised ingestion_failed)
        × Failed id doc st after
      ⊎ ((texts : List Text) × (s : IngestSummary) × (exists doc.file_path ≡ true)
          × (extract doc.file_path ≡ some texts)
          × (r ≡ ok s)
          × Completed id doc texts st s after)

  ingest_pages-Completed :
      (doc : PdfDocument) (texts : List Text)
      → find_document id st.documents ≡ some doc
      → (s : IngestSummary) × (after : Store) × (ingest_pages doc id ids
            (set_status ingesting doc st)
            (some texts)
          ≡ some (ok s, after))
        × Completed id doc texts st s after
  unfolding ingest_pages complete_document
  ingest_pages-Completed doc texts found =
      let (cs, e, pieces, text) = chunk_pages-Pieces 1 (pages_of texts) in
      (
        record {
          document_id = id;
          pages_extracted = length (pages_of texts);
          chunks_created = length cs;
        },
        (complete_document doc id ids (pages_of texts) (set_status ingesting doc st) cs).1,
        ap
            (Option.map
              (complete_document doc id ids (pages_of texts) (set_status ingesting doc st)))
            e,
        (
          stored_chunks doc id ids cs,
          refl,
          stored_chunks-IsStored doc id ids (length (pages_of texts)) cs pieces,
          sym (stored_chunks-length doc id ids cs),
          ap (visible is_space) (stored_chunks-text doc id ids cs) ∙ text,
          find_document-saved_twice id _ _ st.documents (find_document-id id st.documents doc found)
              (find_document-id id st.documents doc found) (rw found refl),
        ),
      )

  ingest_found-cases :
      (doc : PdfDocument)
      → find_document id st.documents ≡ some doc
      → (r : Result IngestError IngestSummary) × (after : Store) × (ingest_found exists extract ids
            id st
            (some doc)
          ≡ some (r, after))
        × Outcome doc r after
  unfolding ingest_found ingest_pages
  ingest_found-cases doc found = elim (Bool-cases (exists doc.file_path)) [
    | inr gone ↦ (
      raised (file_missing doc.file_path),
      set_status failed doc st,
      rw gone refl,
      inl (
        gone,
        refl,
        (
          refl,
          find_document-save_document id _ st.documents (find_document-id id st.documents doc found)
              (rw found refl),
        ),
      ),
    )
    | inl there ↦ elim (Option-cases (extract doc.file_path)) [
      | inl broken ↦ (
        raised ingestion_failed,
        set_status failed doc (set_status ingesting doc st),
        rw (there, broken) refl,
        inr (
            inl (
              there,
              broken,
              refl,
              (
                refl,
                find_document-saved_twice id _ _ st.documents
                    (find_document-id id st.documents doc found)
                    (find_document-id id st.documents doc found) (rw found refl),
              ),
            )),
      )
      | inr (texts, read) ↦
          let (s, after, e, done) = ingest_pages-Completed doc texts found in
          (ok s, after, rw (there, read) e, inr (inr (texts, s, there, read, refl, done)))
    ]
  ]

  -- Every ingestion ends, with a summary or an exception. Without a document nothing changes. If the
  -- file is missing or cannot be read, no chunk is added and the document is failed. Else it is
  -- completed with its number of pages, every new chunk is non-empty, has at most 1500 characters,
  -- a page of the document and a known section, and the new chunks hold all visible characters of
  -- the pages in order.
  pub ingest_pdf-cases :
      (r : Result IngestError IngestSummary) × (after : Store) × (ingest_pdf exists extract ids id
          st
        ≡ some (r, after))
      × ((find_document id st.documents ≡ none)
            × (r ≡ raised (document_not_found id))
            × (after ≡ st)
          ⊎ ((doc : PdfDocument) × (find_document id st.documents ≡ some doc)
              × Outcome doc r after))
  unfolding ingest_pdf ingest_found
  ingest_pdf-cases = elim (Option-cases (find_document id st.documents)) [
    | inl lost ↦ (raised (document_not_found id), st, rw lost refl, inl (lost, refl, refl))
    | inr (doc, found) ↦
        let (r, after, e, out) = ingest_found-cases doc found in
        (r, after, rw found e, inr (doc, found, out))
  ]

-- ===== src/Ingestion/Pieces.antt =====
-- The chunks of all pages of a document, and the form in which they are stored.
use financial_pdf_reader.Base.{ℕ, suc, ◌+◌, ◌≤◌, ◌<◌}
use financial_pdf_reader.Base.{String, ◌≡◌, refl, sym, ap, ◌∙◌}
use financial_pdf_reader.Base.{true, false, Option, none, some}
use financial_pdf_reader.Base.{List, [], ◌∷◌, ◌++◌, arith}
use financial_pdf_reader.Base.{length}
use financial_pdf_reader.Base.{is_empty}
use financial_pdf_reader.Base.{All, All-append, nat_eq, string_eq, text_eq}
use financial_pdf_reader.Text.{Text}
use financial_pdf_reader.Text.{is_space}
use mathlib.Core.List.{append_assoc}
use financial_pdf_reader.Base.{concat_map}
use financial_pdf_reader.Text.Strip.{visible, visible-append}
use financial_pdf_reader.Documents.{PdfDocument, PdfChunk}
use financial_pdf_reader.Classification.{is_section}
use financial_pdf_reader.Classification.Sections.{classify_chunk-is_section}
use financial_pdf_reader.Ingestion.{ChunkData, chunk_pages, stored_chunk, stored_chunks}
use financial_pdf_reader.Ingestion.Chunks.{IsChunk, chunk_page-Cuts}

-- What is made of the pages from a number on.
abbrev IsPiece : ℕ → ℕ → ChunkData → Type 0
IsPiece page last c =
    (is_empty c.text ≡ false) × (length c.text ≤ 1500) × (page ≤ c.page) × (c.page < last)

abbrev text_of : List ChunkData → Text
text_of cs = concat_map (λ c. c.text) cs

abbrev Pieces : ℕ → List Text → Option (List ChunkData) → Type 0
Pieces page texts o =
    (cs : List ChunkData) × (o ≡ some cs)
    × All (IsPiece page (page + length texts)) cs
    × (visible is_space (text_of cs) ≡ visible is_space (concat_map (λ t. t) texts))

All-weaken {ℓ κ μ} :
    {A : Type ℓ} (P : A → Type κ) (Q : A → Type μ) (xs : List A)
    → ((x : A) → P x → Q x)
    → All P xs
    → All Q xs
All-weaken P Q [] f h = tt
All-weaken P Q (x ∷ xs) f (p, h) = (f x p, All-weaken P Q xs f h)

concat_map-append {ℓ κ} :
    {A : Type ℓ} {B : Type κ} (f : A → List B) (xs ys : List A)
    → concat_map f (xs ++ ys) ≡ concat_map f xs ++ concat_map f ys
concat_map-append f [] ys = refl
concat_map-append f (x ∷ xs) ys =
    ap (λ r. f x ++ r) (concat_map-append f xs ys)
    ∙ sym (append_assoc (f x) (concat_map f xs) (concat_map f ys))

visible-texts :
    (xs ys : List ChunkData) (t rest : Text)
    → visible is_space (text_of xs) ≡ visible is_space t
    → visible is_space (text_of ys) ≡ visible is_space rest
    → visible is_space (text_of (xs ++ ys)) ≡ visible is_space (t ++ rest)
visible-texts xs ys t rest v w =
    ap (visible is_space) (concat_map-append (λ c. c.text) xs ys)
    ∙ visible-append is_space (text_of xs) (text_of ys)
    ∙ ap (λ r. r ++ visible is_space (text_of ys)) v
    ∙ ap (λ r. visible is_space t ++ r) w
    ∙ sym (visible-append is_space t rest)

pub chunk_pages-Pieces : (page : ℕ) (texts : List Text) → Pieces page texts (chunk_pages page texts)
unfolding chunk_pages
chunk_pages-Pieces page [] = ([], refl, tt, refl)
chunk_pages-Pieces page (t ∷ ts) =
    let (xs, e, a, v) = chunk_page-Cuts page 1500 t (omega arith) in
    let (ys, f, b, w) = chunk_pages-Pieces (suc page) ts in
    (
      xs ++ ys,
      rw (e, f) refl,
      All-append (IsPiece page (page + length (t ∷ ts))) xs ys
          (All-weaken (IsChunk page 1500) _ xs
            (λ c h. (h.0, h.1, omega (arith, h.2), omega (arith, h.2))) a)
          (All-weaken (IsPiece (suc page) (suc page + length ts)) _ ys
            (λ c h. (h.0, h.1, omega (arith, h.2), omega (arith, h.3))) b),
      visible-texts xs ys t (concat_map (λ u. u) ts) v w,
    )

-- A chunk as it is stored for a document of a number of pages.
abbrev pub IsStored : String → ℕ → PdfChunk → Type 0
IsStored id pages c =
    (c.document_id ≡ id)
    × (is_empty c.text ≡ false)
    × (c.char_count ≡ length c.text)
    × (c.char_count ≤ 1500)
    × (1 ≤ c.page)
    × (c.page ≤ pages)
    × (is_section c.section ≡ true)

pub stored_chunks-IsStored :
    (doc : PdfDocument) (id : String) (ids : ℕ → String) (pages : ℕ) (cs : List ChunkData)
    → All (IsPiece 1 (1 + pages)) cs
    → All (IsStored id pages) (stored_chunks doc id ids cs)
unfolding stored_chunks stored_chunk
stored_chunks-IsStored doc id ids pages [] h = tt
stored_chunks-IsStored doc id ids pages (c ∷ cs) (h, hs) = (
  (
    refl,
    h.0,
    refl,
    h.1,
    h.2,
    omega (arith, h.3),
    classify_chunk-is_section (λ _. none) c.text false,
  ),
  stored_chunks-IsStored doc id (λ n. ids (suc n)) pages cs hs,
)

pub stored_chunks-text :
    (doc : PdfDocument) (id : String) (ids : ℕ → String) (cs : List ChunkData)
    → concat_map (λ c. c.text) (stored_chunks doc id ids cs) ≡ text_of cs
unfolding stored_chunks stored_chunk
stored_chunks-text doc id ids [] = refl
stored_chunks-text doc id ids (c ∷ cs) =
    ap (λ r. c.text ++ r) (stored_chunks-text doc id (λ n. ids (suc n)) cs)

pub stored_chunks-length :
    (doc : PdfDocument) (id : String) (ids : ℕ → String) (cs : List ChunkData)
    → length (stored_chunks doc id ids cs) ≡ length cs
unfolding stored_chunks
stored_chunks-length doc id ids [] = refl
stored_chunks-length doc id ids (c ∷ cs) =
    ap suc (stored_chunks-length doc id (λ n. ids (suc n)) cs)

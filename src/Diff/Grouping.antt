-- ===== src/Diff/Grouping.antt =====
-- services/diff: the chunks of a document by section, and their text.
use financial_pdf_reader.Base.{String, Bool, true, false, not, ◌&&◌}
use financial_pdf_reader.Base.{List, [], ◌∷◌, ◌++◌, map, leb}
use financial_pdf_reader.Base.{if◌then◌else◌, or_default, take, select}
use financial_pdf_reader.Base.{◌==◌, string_eq}
use Prim.Native.String.{compare}
use Prim.Native.Nat.{Ordering}
use financial_pdf_reader.Base.Dict
use financial_pdf_reader.Base.Dict.{Dict, keys}
use financial_pdf_reader.Base.Sort.{sorted}
use financial_pdf_reader.Text.{Text, codes}
use financial_pdf_reader.Text.Lines.{join}
use financial_pdf_reader.Text.Digits.{decimal}
use financial_pdf_reader.Documents.{PdfChunk}

-- `sorted` of strings.
abbrev pub string_le : String → String → Bool
string_le a b = elim (compare a b) [ Ordering.gt ↦ false | _ ↦ true ]

-- A chunk that is filed under a section takes part.
unfoldable pub is_filed : PdfChunk → Bool
is_filed c = not (c.section == "") && not (c.section == "unknown")

-- `grouped[c.section].append(c)`
unfoldable pub group_append : PdfChunk → Dict String (List PdfChunk) → Dict String (List PdfChunk)
group_append c d = Dict.insert c.section (or_default (Dict.lookup c.section d) [] ++ c ∷ []) d

unfoldable pub group_chunks :
    List PdfChunk → Dict String (List PdfChunk) → Dict String (List PdfChunk)
unfolding group_append
group_chunks [] d = d
group_chunks (c ∷ cs) d = group_chunks cs (if is_filed c then group_append c d else d)

unfoldable pub get_section_chunks : List PdfChunk → String → Dict String (List PdfChunk)
unfolding group_chunks
get_section_chunks store document_id =
    group_chunks
      (sorted (λ a b. leb a.page b.page) (select (λ c. c.document_id == document_id) store)) []

-- `_chunks_to_text` with its default of eight chunks.
unfoldable pub chunks_to_text : List PdfChunk → Text
unfolding join decimal
chunks_to_text chunks =
    join (codes "\n\n---\n\n")
      (map (λ c. codes "[p." ++ (decimal c.page ++ (codes "]\n" ++ c.text))) (take 8 chunks))

-- The chunks of a section that has some.
abbrev pub chunks_of : String → Dict String (List PdfChunk) → List PdfChunk
chunks_of section d = or_default (Dict.lookup section d) []

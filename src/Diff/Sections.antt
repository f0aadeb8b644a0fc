-- ===== src/Diff/Sections.antt =====
-- services/diff: which sections a document has, and how the sections of two documents are split.
use financial_pdf_reader.Base.{String, ◌≡◌, refl, sym, ◌∙◌, Bool, false, not, ◌&&◌, ◌||◌}
use financial_pdf_reader.Base.{List, [], ◌∷◌, ◌++◌, any, select, contains, is_empty, leb}
use financial_pdf_reader.Base.{
  or_default, ◌==◌, string_eq, eq_iff, if◌then◌else◌, any-select, arith,
}
use mathlib.Core.List.{append_assoc, append-nil}
use financial_pdf_reader.Base.Dict
use financial_pdf_reader.Base.Dict.{Dict, keys}
use financial_pdf_reader.Base.Sort.{sorted, any-sorted}
use financial_pdf_reader.Documents.{PdfChunk}
use financial_pdf_reader.Diff.Grouping.{
  string_le, is_filed, group_append, group_chunks, get_section_chunks, chunks_of,
}

-- Some chunk of the document is filed under the section.
abbrev pub has_section : List PdfChunk → String → String → Bool
has_section store id s = any (λ c. (c.document_id == id) && (is_filed c && (s == c.section))) store

-- A section has an entry in the dict.
abbrev is_key : String → Dict String (List PdfChunk) → Bool
is_key s d = contains (keys d) s

-- The section has a chunk in the dict.
abbrev has_chunk : String → Dict String (List PdfChunk) → Bool
has_chunk s d = not (is_empty (chunks_of s d))

is_empty-append : (cs : List PdfChunk) (c : PdfChunk) → is_empty (cs ++ c ∷ []) ≡ false
is_empty-append [] c = refl
is_empty-append (d ∷ cs) c = refl

module _ (s : String) (c : PdfChunk) (d : Dict String (List PdfChunk)) where
  is_key-group_append : is_key s (group_append c d) ≡ (is_key s d || (s == c.section))
  unfolding group_append
  is_key-group_append =
      let new = or_default (Dict.lookup c.section d) [] ++ c ∷ [] in
      ground (
        arith,
        Dict.contains-keys s (Dict.insert c.section new d),
        Dict.contains-keys s d,
        Dict.lookup-insert s c.section new d,
      )

  has_chunk-group_append : has_chunk s (group_append c d) ≡ (has_chunk s d || (s == c.section))
  unfolding group_append
  has_chunk-group_append =
      let new = or_default (Dict.lookup c.section d) [] ++ c ∷ [] in
      ground (
        arith,
        Dict.lookup-insert s c.section new d,
        is_empty-append (or_default (Dict.lookup c.section d) []) c,
      )

abbrev pub files : String → PdfChunk → Bool
files s c = is_filed c && (s == c.section)

is_key-group_chunks :
    (s : String) (cs : List PdfChunk) (d : Dict String (List PdfChunk))
    → is_key s (group_chunks cs d) ≡ (is_key s d || any (files s) cs)
unfolding group_chunks
is_key-group_chunks s [] d = ground arith
is_key-group_chunks s (c ∷ cs) d = ground (
  arith,
  is_key-group_chunks s cs (if is_filed c then group_append c d else d),
  is_key-group_append s c d,
)

has_chunk-group_chunks :
    (s : String) (cs : List PdfChunk) (d : Dict String (List PdfChunk))
    → has_chunk s (group_chunks cs d) ≡ (has_chunk s d || any (files s) cs)
unfolding group_chunks
has_chunk-group_chunks s [] d = ground arith
has_chunk-group_chunks s (c ∷ cs) d = ground (
  arith,
  has_chunk-group_chunks s cs (if is_filed c then group_append c d else d),
  has_chunk-group_append s c d,
)

-- The chunks that are grouped.
abbrev pub grouped : List PdfChunk → String → List PdfChunk
grouped store id = sorted (λ a b. leb a.page b.page) (select (λ c. c.document_id == id) store)

any-grouped :
    (s : String) (store : List PdfChunk) (id : String)
    → any (files s) (grouped store id) ≡ has_section store id s
any-grouped s store id =
    any-sorted (λ a b. leb a.page b.page) (files s) (select (λ c. c.document_id == id) store)
    ∙ any-select (files s) (λ c. c.document_id == id) store

-- The sections of a document are those that a chunk is filed under, and each has a chunk.
pub keys-get_section_chunks :
    (s : String) (store : List PdfChunk) (id : String)
    → contains (keys (get_section_chunks store id)) s ≡ has_section store id s
unfolding get_section_chunks
keys-get_section_chunks s store id =
    is_key-group_chunks s (grouped store id) [] ∙ any-grouped s store id

pub chunks_of-get_section_chunks :
    (s : String) (store : List PdfChunk) (id : String)
    → not (is_empty (chunks_of s (get_section_chunks store id))) ≡ has_section store id s
unfolding get_section_chunks Dict.lookup
chunks_of-get_section_chunks s store id =
    has_chunk-group_chunks s (grouped store id) [] ∙ any-grouped s store id

contains-any : (ks : List String) (s : String) → contains ks s ≡ any (λ k. s == k) ks
contains-any [] s = refl
contains-any (k ∷ ks) s = ground (arith, contains-any ks s)

pub contains-sorted :
    (ks : List String) (s : String) → contains (sorted string_le ks) s ≡ contains ks s
contains-sorted ks s =
    contains-any (sorted string_le ks) s
    ∙ any-sorted string_le (λ k. s == k) ks
    ∙ sym (contains-any ks s)

pub contains-select :
    (q : String → Bool) (ks : List String) (s : String)
    → contains (select q ks) s ≡ (contains ks s && q s)
contains-select q [] s = refl
contains-select q (k ∷ ks) s = ground (arith, contains-select q ks s, eq_iff s k)

chunks_of-group_append :
    (s : String) (c : PdfChunk) (d : Dict String (List PdfChunk))
    → chunks_of s (group_append c d)
      ≡ (if s == c.section then chunks_of s d ++ c ∷ [] else chunks_of s d)
unfolding group_append
chunks_of-group_append s c d =
    let new = or_default (Dict.lookup c.section d) [] ++ c ∷ [] in
    ground (arith, Dict.lookup-insert s c.section new d, eq_iff s c.section)

chunks_of-group_chunks :
    (s : String) (cs : List PdfChunk) (d : Dict String (List PdfChunk))
    → chunks_of s (group_chunks cs d) ≡ chunks_of s d ++ select (files s) cs
unfolding group_chunks
chunks_of-group_chunks s [] d = sym (append-nil (chunks_of s d))
chunks_of-group_chunks s (c ∷ cs) d = ground (
  arith,
  chunks_of-group_chunks s cs (if is_filed c then group_append c d else d),
  chunks_of-group_append s c d,
  append_assoc (chunks_of s d) (c ∷ []) (select (files s) cs),
)

-- The dict of a document's sections implements the function from a section to the chunks of the
-- document that are filed under it, in page order.
pub get_section_chunks-select :
    (s : String) (store : List PdfChunk) (id : String)
    → chunks_of s (get_section_chunks store id) ≡ select (files s) (grouped store id)
unfolding get_section_chunks Dict.lookup
get_section_chunks-select s store id = chunks_of-group_chunks s (grouped store id) []

-- ===== src/Diff/Loops.antt =====
-- The loops of services/diff that collect the items.
use financial_pdf_reader.Base.{ℕ, String, ◌≡◌, refl, ◌∙◌, subst, Bool, true, false, ◌&&◌, List}
use financial_pdf_reader.Base.{[], ◌∷◌, any, contains, is_empty, length, All, All-append, arith}
use financial_pdf_reader.Base.{or_default, ◌==◌, string_eq, eq_iff, Bool-cases, inl, inr}
use financial_pdf_reader.Base.Sort.{sorted}
use financial_pdf_reader.Text.Joined.{any-append}
use financial_pdf_reader.Documents.{PdfChunk}
use financial_pdf_reader.Models.Diffs.{DiffItem}
use financial_pdf_reader.Diff.Grouping.{string_le, chunks_of}
use financial_pdf_reader.Diff.Answers.{
  DiffPrompt, DiffAnswer, answer_items, prompt_of, diff_section,
}
use financial_pdf_reader.Diff.{
  DiffContext, diff_shared, new_section_item, removed_section_item, append_first, add_new_sections,
  add_removed_sections, shared_sections, only_current, only_previous, all_items,
}

-- The item says that the section is new, or that it is gone.
abbrev pub is_new_item : String → DiffItem → Bool
is_new_item s i = (s == i.section) && (i.diff_type == "new_language")

abbrev pub is_removed_item : String → DiffItem → Bool
is_removed_item s i = (s == i.section) && (i.diff_type == "removed_language")

-- A loop that appends the item of the first chunk keeps what holds of all items.
append_first-All :
    (P : DiffItem → Type 0) (item : String → PdfChunk → DiffItem) (ids : ℕ → String)
    (cs : List PdfChunk) (items : List DiffItem)
    → ((fresh : String) (c : PdfChunk) → P (item fresh c))
    → All P items
    → All P (append_first item ids cs items)
append_first-All P item ids [] items h a = a
append_first-All P item ids (c ∷ cs) items h a =
    All-append P items (item (ids (length items)) c ∷ []) a (h (ids (length items)) c, tt)

-- What holds of the items of each answer and of each section on its own holds of all items.
module _ (x : DiffContext) (P : DiffItem → Type 0)
    (of_answer : (s : String) (n : ℕ) (a : DiffAnswer)
      → (p : DiffPrompt) → x.ask p ≡ a
      → All P (or_default (answer_items s x.current x.previous x.ids n a) []))
    (of_new : (fresh s : String) (c : PdfChunk)
      → P (new_section_item x.current.document_id fresh s c))
    (of_removed : (fresh s : String) (c : PdfChunk)
      → P (removed_section_item x.previous.document_id fresh s c)) where
  diff_shared-All :
      (ss : List String) (items : List DiffItem) → All P items → All P (diff_shared x ss items)
  unfolding diff_shared diff_section
  diff_shared-All [] items h = h
  diff_shared-All (s ∷ ss) items h =
      let prompt =
        prompt_of s (chunks_of s x.current_by_section) (chunks_of s x.previous_by_section) x.current
          x.previous in
      diff_shared-All ss _
        (All-append P items _ h (of_answer s (length items) (x.ask prompt) prompt refl))

  add_new_sections-All :
      (ss : List String) (items : List DiffItem) → All P items → All P (add_new_sections x ss items)
  unfolding add_new_sections
  add_new_sections-All [] items h = h
  add_new_sections-All (s ∷ ss) items h = add_new_sections-All ss _ (
      append_first-All P (λ fresh c. new_section_item x.current.document_id fresh s c) x.ids
        (chunks_of s x.current_by_section) items (λ fresh c. of_new fresh s c) h)

  add_removed_sections-All :
      (ss : List String) (items : List DiffItem)
      → All P items
      → All P (add_removed_sections x ss items)
  unfolding add_removed_sections
  add_removed_sections-All [] items h = h
  add_removed_sections-All (s ∷ ss) items h = add_removed_sections-All ss _ (
      append_first-All P (λ fresh c. removed_section_item x.previous.document_id fresh s c) x.ids
        (chunks_of s x.previous_by_section) items (λ fresh c. of_removed fresh s c) h)

  pub all_items-All : (order : List String → List String) → All P (all_items order x)
  unfolding all_items
  all_items-All order =
      let shared = diff_shared x (sorted string_le (shared_sections x)) [] in
      let new = add_new_sections x (order (only_current x)) shared in
      add_removed_sections-All (order (only_previous x)) new (
        add_new_sections-All (order (only_current x)) shared
          (diff_shared-All (sorted string_le (shared_sections x)) [] tt))

-- A loop that appends items for sections: the items that were there stay, and a section with a chunk
-- gets its item.
append_first-keeps :
    (p : DiffItem → Bool) (item : String → PdfChunk → DiffItem) (ids : ℕ → String)
    (cs : List PdfChunk) (items : List DiffItem)
    → any p items ≡ true
    → any p (append_first item ids cs items) ≡ true
append_first-keeps p item ids [] items h = h
append_first-keeps p item ids (c ∷ cs) items h =
    any-append p items (item (ids (length items)) c ∷ []) ∙ ground arith

append_first-adds :
    (p : DiffItem → Bool) (item : String → PdfChunk → DiffItem) (ids : ℕ → String)
    (cs : List PdfChunk) (items : List DiffItem)
    → ((fresh : String) (c : PdfChunk) → p (item fresh c) ≡ true)
    → is_empty cs ≡ false
    → any p (append_first item ids cs items) ≡ true
append_first-adds p item ids [] items h k = absurd (ground arith)
append_first-adds p item ids (c ∷ cs) items h k =
    any-append p items (item (ids (length items)) c ∷ []) ∙ ground (arith, h (ids (length items)) c)

module _ (x : DiffContext) where
  pub add_new_sections-keeps :
      (p : DiffItem → Bool) (ss : List String) (items : List DiffItem)
      → any p items ≡ true
      → any p (add_new_sections x ss items) ≡ true
  unfolding add_new_sections
  add_new_sections-keeps p [] items h = h
  add_new_sections-keeps p (s ∷ ss) items h = add_new_sections-keeps p ss _ (
      append_first-keeps p (λ fresh c. new_section_item x.current.document_id fresh s c) x.ids
        (chunks_of s x.current_by_section) items h)

  pub add_removed_sections-keeps :
      (p : DiffItem → Bool) (ss : List String) (items : List DiffItem)
      → any p items ≡ true
      → any p (add_removed_sections x ss items) ≡ true
  unfolding add_removed_sections
  add_removed_sections-keeps p [] items h = h
  add_removed_sections-keeps p (s ∷ ss) items h = add_removed_sections-keeps p ss _ (
      append_first-keeps p (λ fresh c. removed_section_item x.previous.document_id fresh s c) x.ids
        (chunks_of s x.previous_by_section) items h)

  pub add_new_sections-adds :
      (s : String) (ss : List String) (items : List DiffItem)
      → contains ss s ≡ true
      → is_empty (chunks_of s x.current_by_section) ≡ false
      → any (is_new_item s) (add_new_sections x ss items) ≡ true
  unfolding add_new_sections new_section_item
  add_new_sections-adds s [] items h k = absurd (ground arith)
  add_new_sections-adds s (t ∷ ss) items h k = elim (Bool-cases (s == t)) [
    | inl e ↦
        let same : s ≡ t = (eq_iff s t).0 e in
        add_new_sections-keeps (is_new_item s) ss _ (
          append_first-adds (is_new_item s)
            (λ fresh c. new_section_item x.current.document_id fresh t c) x.ids
            (chunks_of t x.current_by_section) items (λ fresh c. ground arith)
            (subst (λ u. is_empty (chunks_of u x.current_by_section) ≡ false) same k))
    | inr e ↦ add_new_sections-adds s ss _ (ground arith) k
  ]

  pub add_removed_sections-adds :
      (s : String) (ss : List String) (items : List DiffItem)
      → contains ss s ≡ true
      → is_empty (chunks_of s x.previous_by_section) ≡ false
      → any (is_removed_item s) (add_removed_sections x ss items) ≡ true
  unfolding add_removed_sections removed_section_item
  add_removed_sections-adds s [] items h k = absurd (ground arith)
  add_removed_sections-adds s (t ∷ ss) items h k = elim (Bool-cases (s == t)) [
    | inl e ↦
        let same : s ≡ t = (eq_iff s t).0 e in
        add_removed_sections-keeps (is_removed_item s) ss _ (
          append_first-adds (is_removed_item s)
            (λ fresh c. removed_section_item x.previous.document_id fresh t c) x.ids
            (chunks_of t x.previous_by_section) items (λ fresh c. ground arith)
            (subst (λ u. is_empty (chunks_of u x.previous_by_section) ≡ false) same k))
    | inr e ↦ add_removed_sections-adds s ss _ (ground arith) k
  ]

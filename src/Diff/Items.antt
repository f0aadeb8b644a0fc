-- ===== src/Diff/Items.antt =====
-- services/diff: what every item of a diff report cites.
use financial_pdf_reader.Base.{ℕ, suc, ◌≤◌, String, ◌≡◌, refl, true, false}
use financial_pdf_reader.Base.{◌&&◌, Option, some, List, [], ◌∷◌, length}
use financial_pdf_reader.Base.{is_empty, contains, or_default, All, All-if, arith}
use financial_pdf_reader.Base.{string_eq, if◌then◌else◌, length-take-le, Bool-cases}
use financial_pdf_reader.Base.{inl, inr}
use financial_pdf_reader.Text.Digits.{is_empty-decimal}
use financial_pdf_reader.Documents.{PdfDocument, PdfChunk}
use financial_pdf_reader.Models.Diffs.{DiffEvidence, DiffItem}
use financial_pdf_reader.Diff.Answers.{
  RawDiffItem, DiffAnswer, failed_call, unreadable, answered, presences, diff_types, choice,
  no_evidence, diff_evidence, diff_item, has_page, diff_items, answer_items,
}
use financial_pdf_reader.Diff.{DiffContext, new_section_item, removed_section_item, all_items}
use financial_pdf_reader.Diff.Loops.{all_items-All}

-- Evidence with a page text of at least one of the two documents, which names a document exactly where
-- it has a page text of it. A page that is null in the answer has the text "None".
pub record IsCited (current previous : String) (e : DiffEvidence) : Type 0 where
  pub names_current : e.current_document_id ≡ (if is_empty e.current_page then "" else current)
  pub names_previous : e.previous_document_id ≡ (if is_empty e.previous_page then "" else previous)
  pub has_source : (is_empty e.current_page && is_empty e.previous_page) ≡ false
  pub present : contains presences e.presence ≡ true
  pub quotes_fit : (length e.current_quoted ≤ 100) × (length e.previous_quoted ≤ 100)

pub record IsDiffItem (current previous : String) (i : DiffItem) : Type 0 where
  pub cited : (e : DiffEvidence) × (i.evidence ≡ some e) × IsCited current previous e
  pub typed : contains diff_types i.diff_type ≡ true
  pub summaries_fit : (length i.current_summary ≤ 300) × (length i.previous_summary ≤ 300)

choice-contains :
    (choices : List String) (default : String) (value : Option String)
    → contains choices default ≡ true
    → contains choices (choice choices default value) ≡ true
choice-contains choices default value h =
    elim (Bool-cases (contains choices (or_default value default))) [
      | inl e ↦ rw e e
      | inr e ↦ rw e h
    ]

diff_evidence-IsCited :
    (current previous : PdfDocument) (raw : RawDiffItem)
    → has_page raw ≡ true
    → IsCited current.document_id previous.document_id
        (diff_evidence current previous (or_default raw.evidence no_evidence))
unfolding diff_evidence has_page
diff_evidence-IsCited current previous raw h =
    let e = or_default raw.evidence no_evidence in
    record {
      names_current = refl;
      names_previous = refl;
      has_source = ground arith;
      present = choice-contains presences "both" e.presence refl;
      quotes_fit = (
        length-take-le 100 (or_default e.current_quoted []),
        length-take-le 100 (or_default e.previous_quoted []),
      );
    }

module _ (current previous : PdfDocument) where
  abbrev IsItem : DiffItem → Type 0
  IsItem = IsDiffItem current.document_id previous.document_id

  diff_item-IsDiffItem :
      (section fresh : String) (raw : RawDiffItem)
      → has_page raw ≡ true
      → IsItem (diff_item section current previous fresh raw)
  unfolding diff_item
  diff_item-IsDiffItem section fresh raw h = record {
    cited = (
      diff_evidence current previous (or_default raw.evidence no_evidence),
      refl,
      diff_evidence-IsCited current previous raw h,
    );
    typed = choice-contains diff_types "new_language" raw.diff_type refl;
    summaries_fit = (
      length-take-le 300 (or_default raw.current_summary []),
      length-take-le 300 (or_default raw.previous_summary []),
    );
  }

  diff_items-IsDiffItem :
      (section : String) (ids : ℕ → String) (n : ℕ) (raws : List RawDiffItem)
      → All IsItem (diff_items section current previous ids n raws)
  unfolding diff_items
  diff_items-IsDiffItem section ids n [] = tt
  diff_items-IsDiffItem section ids n (raw ∷ raws) =
      let rest = diff_items-IsDiffItem section ids (if has_page raw then suc n else n) raws in
      All-if IsItem (has_page raw) _ _ (λ h. (diff_item-IsDiffItem section (ids n) raw h, rest))
        (λ _. rest)

  answer_items-IsDiffItem :
      (section : String) (ids : ℕ → String) (n : ℕ) (a : DiffAnswer)
      → All IsItem (or_default (answer_items section current previous ids n a) [])
  unfolding answer_items
  answer_items-IsDiffItem section ids n failed_call = tt
  answer_items-IsDiffItem section ids n unreadable = tt
  answer_items-IsDiffItem section ids n (answered raws) = diff_items-IsDiffItem section ids n raws

module _ (current previous : String) where
  new_section_item-IsDiffItem :
      (fresh section : String) (c : PdfChunk)
      → IsDiffItem current previous (new_section_item current fresh section c)
  unfolding new_section_item
  new_section_item-IsDiffItem fresh section c = record {
    cited = (
      _,
      refl,
      record {
        names_current = rw (is_empty-decimal c.page) refl;
        names_previous = refl;
        has_source = rw (is_empty-decimal c.page) refl;
        present = refl;
        quotes_fit = (omega (arith, length-take-le 80 c.text), omega arith);
      },
    );
    typed = refl;
    summaries_fit = (omega (arith, length-take-le 200 c.text), omega arith);
  }

  removed_section_item-IsDiffItem :
      (fresh section : String) (c : PdfChunk)
      → IsDiffItem current previous (removed_section_item previous fresh section c)
  unfolding removed_section_item
  removed_section_item-IsDiffItem fresh section c = record {
    cited = (
      _,
      refl,
      record {
        names_current = refl;
        names_previous = rw (is_empty-decimal c.page) refl;
        has_source = rw (is_empty-decimal c.page) refl;
        present = refl;
        quotes_fit = (omega arith, omega (arith, length-take-le 80 c.text));
      },
    );
    typed = refl;
    summaries_fit = (omega arith, omega (arith, length-take-le 200 c.text));
  }

pub all_items-IsDiffItem :
    (x : DiffContext) (order : List String → List String)
    → All (IsDiffItem x.current.document_id x.previous.document_id) (all_items order x)
all_items-IsDiffItem x =
    all_items-All x (IsDiffItem x.current.document_id x.previous.document_id)
      (λ s n a _ _. answer_items-IsDiffItem x.current x.previous s x.ids n a)
      (new_section_item-IsDiffItem x.current.document_id x.previous.document_id)
      (removed_section_item-IsDiffItem x.current.document_id x.previous.document_id)

-- ===== src/Diff/Audited.antt =====
-- services/diff and services/audit together: the audit of a diff report by R6.
use financial_pdf_reader.Base.{ℕ, suc, String, ◌≡◌, refl, ◌∙◌, subst, Bool, true, false}
use financial_pdf_reader.Base.{not, ◌||◌, some, List, [], ◌∷◌, All, All-if, arith}
use financial_pdf_reader.Base.{or_default, count_if, length, select, ◌==◌, string_eq, eq_iff}
use financial_pdf_reader.Base.{if◌then◌else◌}
use financial_pdf_reader.Base.Result.{◌>>=◌, ok, >>=-eq-ok, found_or}
use financial_pdf_reader.Documents.{PdfDocument, PdfChunk}
use financial_pdf_reader.Ingestion.{find_document}
use financial_pdf_reader.Models.Diffs.{DiffItem, DiffReport}
use financial_pdf_reader.Audit.{DiffAuditReport, first, run_diff_audit}
use financial_pdf_reader.Audit.Diffs.{is_unmarked_item, run_diff_audit-counts}
use financial_pdf_reader.Diff.Answers.{
  DiffPrompt, RawDiffItem, DiffAnswer, failed_call, unreadable, answered, diff_types, choice,
  diff_item, has_page, diff_items, answer_items,
}
use financial_pdf_reader.Diff.{
  DiffContext, new_section_item, removed_section_item, all_items, diff_report, diff_context,
  compare_documents, generate_diff, current_not_found, previous_not_found,
}
use financial_pdf_reader.Diff.Loops.{all_items-All}

-- The model does not call a change of tone more than that.
abbrev pub admits_tone : RawDiffItem → Bool
admits_tone raw =
    not (choice diff_types "new_language" raw.diff_type == "tone_shift")
    || or_default raw.tone_only true

abbrev pub AdmitsTone : DiffAnswer → Type 0
AdmitsTone (answered raws) = All (λ raw. admits_tone raw ≡ true) raws
AdmitsTone _ = Unit

abbrev IsMarked : DiffItem → Type 0
IsMarked i = is_unmarked_item i ≡ false

diff_item-IsMarked :
    (section : String) (current previous : PdfDocument) (fresh : String) (raw : RawDiffItem)
    → admits_tone raw ≡ true
    → IsMarked (diff_item section current previous fresh raw)
unfolding diff_item
diff_item-IsMarked section current previous fresh raw h = ground arith

module _ (section : String) (current previous : PdfDocument) (ids : ℕ → String) where
  diff_items-IsMarked :
      (n : ℕ) (raws : List RawDiffItem)
      → All (λ raw. admits_tone raw ≡ true) raws
      → All IsMarked (diff_items section current previous ids n raws)
  unfolding diff_items
  diff_items-IsMarked n [] h = tt
  diff_items-IsMarked n (raw ∷ raws) (h, hs) =
      let rest = diff_items-IsMarked (if has_page raw then suc n else n) raws hs in
      All-if IsMarked (has_page raw) _ _
        (λ _. (diff_item-IsMarked section current previous (ids n) raw h, rest)) (λ _. rest)

  answer_items-IsMarked :
      (n : ℕ) (a : DiffAnswer)
      → AdmitsTone a
      → All IsMarked (or_default (answer_items section current previous ids n a) [])
  unfolding answer_items
  answer_items-IsMarked n failed_call h = tt
  answer_items-IsMarked n unreadable h = tt
  answer_items-IsMarked n (answered raws) h = diff_items-IsMarked n raws h

all_items-IsMarked :
    (x : DiffContext) (order : List String → List String)
    → ((p : DiffPrompt) → AdmitsTone (x.ask p))
    → All IsMarked (all_items order x)
unfolding new_section_item removed_section_item
all_items-IsMarked x order h =
    all_items-All x IsMarked
      (λ s n a p e.
        answer_items-IsMarked s x.current x.previous x.ids n a (subst AdmitsTone e (h p)))
      (λ fresh s c. refl) (λ fresh s c. refl) order

none-counted : (items : List DiffItem) → All IsMarked items → count_if is_unmarked_item items ≡ 0
none-counted [] h = refl
none-counted (i ∷ is) (h, hs) = ground (arith, none-counted is hs)

compare_documents-eq :
    (ask : DiffPrompt → DiffAnswer) (order : List String → List String) (ids : ℕ → String)
    (report_id : String) (store : List PdfChunk) (current previous : PdfDocument) (r : DiffReport)
    → compare_documents ask order ids report_id store current previous ≡ ok r
    → diff_report report_id order (diff_context ask ids store current previous) ≡ r
unfolding compare_documents
compare_documents-eq ask order ids report_id store current previous r e = ground arith

-- What a diff that succeeds returns.
generate_diff-eq :
    (ask : DiffPrompt → DiffAnswer) (order : List String → List String) (ids : ℕ → String)
    (report_id : String) (docs : List PdfDocument) (store : List PdfChunk)
    (current_id previous_id : String) (r : DiffReport)
    → generate_diff ask order ids report_id docs store current_id previous_id ≡ ok r
    → (current : PdfDocument) × (previous : PdfDocument) × (diff_report report_id order
          (diff_context ask ids store current previous)
        ≡ r)
unfolding generate_diff
generate_diff-eq ask order ids report_id docs store current_id previous_id r e =
    let compare = compare_documents ask order ids report_id store in
    let found_previous =
      found_or (find_document previous_id docs) (previous_not_found previous_id) in
    let (current, _, e1) =
      >>=-eq-ok (found_or (find_document current_id docs) (current_not_found current_id))
        (λ current. found_previous >>= compare current) r e in
    let (previous, _, e2) = >>=-eq-ok found_previous (compare current) r e1 in
    (current, previous, compare_documents-eq ask order ids report_id store current previous r e2)

-- If the model never denies that a change of tone is one of tone alone, then every diff that returns
-- a report passes the audit when the report is stored first: R6 finds no violation, there is no
-- warning, and every item is counted.
pub generate_diff-run_diff_audit :
    (ask : DiffPrompt → DiffAnswer) (order : List String → List String) (ids : ℕ → String)
    (report_id : String) (docs : List PdfDocument) (store : List PdfChunk)
    (current_id previous_id : String) (r : DiffReport) (stored : List DiffReport)
    → ((p : DiffPrompt) → AdmitsTone (ask p))
    → generate_diff ask order ids report_id docs store current_id previous_id ≡ ok r
    → (a : DiffAuditReport) × (run_diff_audit (r ∷ stored) r.diff_report_id ≡ ok a)
      × (a.violation_count ≡ 0)
      × (a.warning_count ≡ 0)
      × (a.total_items ≡ length r.items)
unfolding diff_report diff_context
generate_diff-run_diff_audit ask order ids report_id docs store current_id previous_id r stored h
      e =
    let (current, previous, made) =
      generate_diff-eq ask order ids report_id docs store current_id previous_id r e in
    let marked : All IsMarked r.items =
      subst (λ x. All IsMarked x.items) made
        (all_items-IsMarked (diff_context ask ids store current previous) order h) in
    let found : first (select (λ x. x.diff_report_id == r.diff_report_id) (r ∷ stored)) ≡ some r =
      rw ((eq_iff r.diff_report_id r.diff_report_id).1 refl) refl in
    let (a, returned, violations, warnings, total) =
      run_diff_audit-counts (r ∷ stored) r.diff_report_id r found in
    (a, returned, violations ∙ none-counted r.items marked, warnings, total)

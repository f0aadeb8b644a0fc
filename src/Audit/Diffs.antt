-- ===== src/Audit/Diffs.antt =====
-- The audit of a stored diff report.
use financial_pdf_reader.Base.{String, ◌≡◌, refl, ◌∙◌, Bool, not, ◌&&◌}
use financial_pdf_reader.Base.{some, List, [], ◌∷◌, map, arith, count_if, length}
use financial_pdf_reader.Base.{select, ◌==◌, string_eq}
use financial_pdf_reader.Base.Result.{ok}
use financial_pdf_reader.Governance.{audit_diff_items}
use financial_pdf_reader.Governance.Diffs.{is_unmarked, audit_diff_items-counts}
use financial_pdf_reader.Models.Diffs.{DiffItem, DiffReport}
use financial_pdf_reader.Audit.{
  DiffAuditReport, diff_audit_report, first, item_dict, run_diff_audit,
}

-- An item that R6 forbids.
abbrev pub is_unmarked_item : DiffItem → Bool
is_unmarked_item i = (i.diff_type == "tone_shift") && not i.tone_only

count_if-map :
    (items : List DiffItem)
    → count_if is_unmarked (map item_dict items) ≡ count_if is_unmarked_item items
count_if-map [] = refl
count_if-map (i ∷ items) = ground (arith, count_if-map items)

-- An audit of a stored diff report returns one violation for each tone shift that is not marked, no
-- warning, and the number of the report's items.
pub run_diff_audit-counts :
    (reports : List DiffReport) (id : String) (report : DiffReport)
    → first (select (λ r. r.diff_report_id == id) reports) ≡ some report
    → (r : DiffAuditReport) × (run_diff_audit reports id ≡ ok r)
      × (r.violation_count ≡ count_if is_unmarked_item report.items)
      × (r.warning_count ≡ 0)
      × (r.total_items ≡ length report.items)
unfolding run_diff_audit diff_audit_report
run_diff_audit-counts reports id report found =
    let audit =
      audit_diff_items report.diff_report_id report.current_document_id
        (map item_dict report.items) in
    let counts =
      audit_diff_items-counts report.diff_report_id report.current_document_id
        (map item_dict report.items) in
    (
      diff_audit_report report audit,
      rw found refl,
      counts.0 ∙ count_if-map report.items,
      counts.1,
      refl,
    )

-- ===== src/Governance/Diffs.antt =====
-- The audit of diff items: R6 alone.
use financial_pdf_reader.Base.{◌+◌}
use financial_pdf_reader.Base.{String, ◌≡◌, refl, ap}
use financial_pdf_reader.Base.{Bool, false, not, ◌&&◌, Option, none, some}
use financial_pdf_reader.Base.{List, [], ◌∷◌, arith, if◌then◌else◌}
use financial_pdf_reader.Base.{or_default, length}
use financial_pdf_reader.Base.{count_if, opt_list}
use financial_pdf_reader.Base.{length-append}
use financial_pdf_reader.Base.{◌==◌, nat_eq, string_eq, text_eq}
use financial_pdf_reader.Governance.{
  GovernanceViolation, GovernanceAuditResult, DiffDict, violation_count, warning_count,
  check_r6_diff, add_violation, new_result, audit_diff_item, audit_diff_loop, audit_diff_items,
}

-- A tone shift that is not marked as such.
abbrev pub is_unmarked : DiffDict → Bool
is_unmarked item =
    (or_default item.diff_type "" == "tone_shift") && not (or_default item.tone_only false)

add_violation-length :
    (v : Option GovernanceViolation) (r : GovernanceAuditResult)
    → violation_count (add_violation v r) ≡ violation_count r + length (opt_list v)
add_violation-length none r = omega arith
add_violation-length (some v) r = length-append r.violations (v ∷ [])

audit_diff_item-length :
    (item : DiffDict) (r : GovernanceAuditResult)
    → violation_count (audit_diff_item item r)
      ≡ violation_count r + (if is_unmarked item then 1 else 0)
unfolding audit_diff_item check_r6_diff
audit_diff_item-length item r = ground (
  arith,
  add_violation-length
      (check_r6_diff (or_default item.diff_id "unknown") (or_default item.diff_type "")
        (or_default item.tone_only false))
      r,
)

audit_diff_loop-length :
    (items : List DiffDict) (r : GovernanceAuditResult)
    → violation_count (audit_diff_loop items r) ≡ violation_count r + count_if is_unmarked items
unfolding audit_diff_loop
audit_diff_loop-length [] r = omega arith
audit_diff_loop-length (item ∷ items) r =
    ground
      (arith, audit_diff_loop-length items (audit_diff_item item r), audit_diff_item-length item r)

audit_diff_loop-rest :
    (items : List DiffDict) (r : GovernanceAuditResult)
    → ((audit_diff_loop items r).warnings ≡ r.warnings)
      × ((audit_diff_loop items r).total_claims ≡ r.total_claims)
unfolding audit_diff_loop audit_diff_item
audit_diff_loop-rest [] r = (refl, refl)
audit_diff_loop-rest (item ∷ items) r =
    ground (arith, audit_diff_loop-rest items (audit_diff_item item r))

-- The audit of a diff report has one violation for each tone shift that is not marked `tone_only`,
-- gives no warning, and counts every item.
pub audit_diff_items-counts :
    (report doc : String) (items : List DiffDict)
    → (violation_count (audit_diff_items report doc items) ≡ count_if is_unmarked items)
      × (warning_count (audit_diff_items report doc items) ≡ 0)
      × ((audit_diff_items report doc items).total_claims ≡ length items)
unfolding audit_diff_items
audit_diff_items-counts report doc items =
    let start = new_result report doc (length items) in
    (
      omega (arith, audit_diff_loop-length items start),
      ap length (audit_diff_loop-rest items start).0,
      (audit_diff_loop-rest items start).1,
    )

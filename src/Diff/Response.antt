-- ===== src/Diff/Response.antt =====
-- `_serialize_report` of services/diff: the response for a diff report.
use financial_pdf_reader.Base.{ℕ, String, Bool, Option, none, some, List, [], map, length}
use financial_pdf_reader.Text.{Text}
use financial_pdf_reader.Models.Diffs.{Field, DiffEvidence, DiffItem, DiffReport}

pub record EvidenceEntry : Type 0 where
  pub current_page : Text
  pub current_quoted : Text
  pub previous_page : Text
  pub previous_quoted : Text
  pub presence : String

pub record DiffEntry : Type 0 where
  pub diff_id : Field String
  pub section : String
  pub diff_type : String
  pub description : Field Text
  pub current_summary : Text
  pub previous_summary : Text
  pub tone_only : Bool
  pub requires_human_review : Bool
  pub evidence : EvidenceEntry

pub record DiffResponse : Type 0 where
  pub diff_report_id : String
  pub stock_id : String
  pub current_period : String
  pub previous_period : String
  pub sections_compared : List String
  pub sections_only_current : List String
  pub sections_only_previous : List String
  pub total_items : ℕ
  pub requires_human_review : Bool
  pub items : List DiffEntry

abbrev pub evidence_entry : Option DiffEvidence → EvidenceEntry
evidence_entry none = record {
  current_page = [];
  current_quoted = [];
  previous_page = [];
  previous_quoted = [];
  presence = "both";
}
evidence_entry (some e) = record {
  current_page = e.current_page;
  current_quoted = e.current_quoted;
  previous_page = e.previous_page;
  previous_quoted = e.previous_quoted;
  presence = e.presence;
}

abbrev pub diff_entry : DiffItem → DiffEntry
diff_entry i = record {
  diff_id = i.diff_id;
  section = i.section;
  diff_type = i.diff_type;
  description = i.description;
  current_summary = i.current_summary;
  previous_summary = i.previous_summary;
  tone_only = i.tone_only;
  requires_human_review = i.requires_human_review;
  evidence = evidence_entry i.evidence;
}

unfoldable pub serialize_report : DiffReport → DiffResponse
serialize_report r = record {
  diff_report_id = r.diff_report_id;
  stock_id = r.stock_id;
  current_period = r.current_period;
  previous_period = r.previous_period;
  sections_compared = r.sections_compared;
  sections_only_current = r.sections_only_current;
  sections_only_previous = r.sections_only_previous;
  total_items = length r.items;
  requires_human_review = r.requires_human_review;
  items = map diff_entry r.items;
}

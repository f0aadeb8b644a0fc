-- ===== src/Diff/Answers.antt =====
-- services/diff: `_diff_section`, from the chunks of a section to the items of the model's answer.
use financial_pdf_reader.Base.{ℕ, suc, String, Bool, true, not, ◌&&◌}
use financial_pdf_reader.Base.{Option, none, some, List, [], ◌∷◌}
use financial_pdf_reader.Base.{if◌then◌else◌, or_default, take, is_empty, contains}
use financial_pdf_reader.Base.{◌==◌, string_eq}
use financial_pdf_reader.Text.{Text, codes, is_space}
use financial_pdf_reader.Text.Strip.{strip_by}
use financial_pdf_reader.Text.Digits.{decimal}
use financial_pdf_reader.Documents.{PdfDocument, PdfChunk}
use financial_pdf_reader.Models.Diffs.{Field, text_value, DiffEvidence, DiffItem}
use financial_pdf_reader.Diff.Grouping.{chunks_to_text}

-- The values that the prompt is filled with.
pub record DiffPrompt : Type 0 where
  pub section : String
  pub stock_id : String
  pub current_period : String
  pub previous_period : String
  pub current_chunks : Text
  pub previous_chunks : Text

-- A page as JSON gives it.
pub data PageValue : Type 0 where
  null_page : PageValue
  number_page : ℕ → PageValue
  text_page : Text → PageValue

pub record RawDiffEvidence : Type 0 where
  pub presence : Option String
  pub current_page : Option PageValue
  pub current_quoted : Option Text
  pub previous_page : Option PageValue
  pub previous_quoted : Option Text

pub record RawDiffItem : Type 0 where
  pub diff_id : Option (Field String)
  pub diff_type : Option String
  pub description : Option (Field Text)
  pub current_summary : Option Text
  pub previous_summary : Option Text
  pub evidence : Option RawDiffEvidence
  pub tone_only : Option Bool
  pub requires_human_review : Option Bool

-- `failed_call` stands for every exception of `_diff_section`: of the call, or of an answer whose
-- summaries or quotations are not texts. The caller skips the section.
pub data DiffAnswer : Type 0 where
  failed_call unreadable : DiffAnswer
  answered : List RawDiffItem → DiffAnswer

-- `str(value).strip()`, where a missing page is "".
abbrev pub page_str : Option PageValue → Text
page_str none = []
page_str (some null_page) = codes "None"
page_str (some (number_page n)) = decimal n
page_str (some (text_page t)) = t

unfoldable pub page_text : Option PageValue → Text
page_text v = strip_by is_space (page_str v)

abbrev pub no_evidence : RawDiffEvidence
no_evidence = record {
  presence = none;
  current_page = none;
  current_quoted = none;
  previous_page = none;
  previous_quoted = none;
}

abbrev pub presences : List String
presences = "both" ∷ "only_in_current" ∷ "only_in_previous" ∷ []

abbrev pub diff_types : List String
diff_types =
    "new_language" ∷ "removed_language" ∷ "tone_shift" ∷ "numeric_change" ∷ "new_risk"
    ∷ "removed_risk" ∷ []

-- The value, if it is one of the choices, and else the default.
abbrev pub choice : List String → String → Option String → String
choice choices default value =
    if contains choices (or_default value default) then or_default value default else default

unfoldable pub diff_evidence : PdfDocument → PdfDocument → RawDiffEvidence → DiffEvidence
unfolding page_text
diff_evidence current previous e =
    let c_page = page_text e.current_page in
    let p_page = page_text e.previous_page in
    record {
      current_document_id = if is_empty c_page then "" else current.document_id;
      current_page = c_page;
      current_quoted = take 100 (or_default e.current_quoted []);
      previous_document_id = if is_empty p_page then "" else previous.document_id;
      previous_page = p_page;
      previous_quoted = take 100 (or_default e.previous_quoted []);
      presence = choice presences "both" e.presence;
    }

-- The item that the loop body appends; `fresh` is the new identifier.
unfoldable pub diff_item : String → PdfDocument → PdfDocument → String → RawDiffItem → DiffItem
unfolding diff_evidence
diff_item section current previous fresh raw =
    let diff_type = choice diff_types "new_language" raw.diff_type in
    record {
      diff_id = or_default raw.diff_id (text_value fresh);
      section = section;
      diff_type = diff_type;
      description = or_default raw.description (text_value []);
      current_summary = take 300 (or_default raw.current_summary []);
      previous_summary = take 300 (or_default raw.previous_summary []);
      evidence = some (diff_evidence current previous (or_default raw.evidence no_evidence));
      requires_human_review = or_default raw.requires_human_review true;
      tone_only = or_default raw.tone_only (diff_type == "tone_shift");
    }

-- An item without a page is skipped.
unfoldable pub has_page : RawDiffItem → Bool
unfolding page_text
has_page raw =
    let e = or_default raw.evidence no_evidence in
    not (is_empty (page_text e.current_page) && is_empty (page_text e.previous_page))

-- The loop over the items; `n` identifiers were drawn before.
unfoldable pub diff_items :
    String → PdfDocument → PdfDocument → (ℕ → String) → ℕ → List RawDiffItem → List DiffItem
unfolding has_page diff_item
diff_items section current previous ids n [] = []
diff_items section current previous ids n (raw ∷ raws) =
    let rest = diff_items section current previous ids (if has_page raw then suc n else n) raws in
    if has_page raw then diff_item section current previous (ids n) raw ∷ rest else rest

abbrev pub or_text : Text → Text → Text
or_text t default = if is_empty t then default else t

abbrev pub prompt_of :
    String → List PdfChunk → List PdfChunk → PdfDocument → PdfDocument → DiffPrompt
prompt_of section current_chunks previous_chunks current previous = record {
  section = section;
  stock_id = current.stock_id;
  current_period = current.period;
  previous_period = previous.period;
  current_chunks = or_text (chunks_to_text current_chunks) (codes "(本季無此段落資料)");
  previous_chunks = or_text (chunks_to_text previous_chunks) (codes "(上季無此段落資料)");
}

-- The items of an answer, or nothing if the call raises.
unfoldable pub answer_items :
    String → PdfDocument → PdfDocument → (ℕ → String) → ℕ → DiffAnswer → Option (List DiffItem)
unfolding diff_items
answer_items section current previous ids n failed_call = none
answer_items section current previous ids n unreadable = some []
answer_items section current previous ids n (answered raws) =
    some (diff_items section current previous ids n raws)

unfoldable pub diff_section :
    (DiffPrompt → DiffAnswer)
    → String
    → List PdfChunk
    → List PdfChunk
    → PdfDocument
    → PdfDocument
    → (ℕ → String)
    → ℕ
    → Option (List DiffItem)
unfolding answer_items
diff_section ask section current_chunks previous_chunks current previous ids n =
    answer_items section current previous ids n
      (ask (prompt_of section current_chunks previous_chunks current previous))

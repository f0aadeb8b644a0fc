-- ===== src/Models/Diffs.antt =====
-- models/reports: the records of a diff report. Choices are kept as the strings that are stored.
use financial_pdf_reader.Base.{String, Bool, true, false, ◌&&◌, Option, none, some, List}
use financial_pdf_reader.Text.{Text}

-- The value of a `StringField` before it is validated: JSON null, a value that is no text, or a text.
pub data Field {ℓ} (A : Type ℓ) : Type ℓ where
  null_value other_value : Field A
  text_value : A → Field A

abbrev pub is_text {ℓ} : {A : Type ℓ} → Field A → Bool
is_text (text_value a) = true
is_text _ = false

abbrev pub text_of {ℓ} : {A : Type ℓ} → Field A → Option A
text_of (text_value a) = some a
text_of _ = none

-- `DiffEvidence`
pub record DiffEvidence : Type 0 where
  pub current_document_id : String
  pub current_page : Text
  pub current_quoted : Text
  pub previous_document_id : String
  pub previous_page : Text
  pub previous_quoted : Text
  pub presence : String

-- `DiffItem`
pub record DiffItem : Type 0 where
  pub diff_id : Field String
  pub section : String
  pub diff_type : String
  pub description : Field Text
  pub current_summary : Text
  pub previous_summary : Text
  pub evidence : Option DiffEvidence
  pub requires_human_review : Bool
  pub tone_only : Bool

-- `DiffReport`, without its time stamp.
pub record DiffReport : Type 0 where
  pub diff_report_id : String
  pub current_document_id : String
  pub previous_document_id : String
  pub stock_id : String
  pub current_period : String
  pub previous_period : String
  pub items : List DiffItem
  pub sections_compared : List String
  pub sections_only_current : List String
  pub sections_only_previous : List String
  pub requires_human_review : Bool

-- What `save` asks of an item: the required fields that come from the model hold texts.
abbrev pub is_storable : DiffItem → Bool
is_storable i = is_text i.diff_id && is_text i.description

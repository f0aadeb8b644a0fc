-- ===== src/Patterns.antt =====
-- reasoning_patterns/schemas.py, services/reasoning_patterns/evidence_resolver.py and engine.py.
--
-- The engine gets the claims as dicts that `_claim_to_dict` made, in which no key is missing.
pub mod Registry
pub mod Run
pub mod Matching
pub mod Laws
pub mod Sources
use financial_pdf_reader.Base.{ℕ, suc, String, Bool, true, false, not, ◌&&◌, Option, none, some}
use financial_pdf_reader.Base.{List, [], ◌∷◌, if◌then◌else◌, or_default, select, concat_map}
use financial_pdf_reader.Base.{contains, ◌==◌, string_eq, text_eq}
use financial_pdf_reader.Text.{Text, any_in_lower}

-- The dict of a claim.
pub record ClaimEntry : Type 0 where
  pub claim_id : String
  pub claim : Text
  pub claim_type : String
  pub claim_level : String
  pub materiality : String
  pub section_key : String
  pub recurring : Option Bool
  pub contaminated : Bool

pub record ClaimPropertyFilter : Type 0 where
  pub section_keys : Option (List String)
  pub materiality : Option (List String)
  pub recurring : Option Bool
  pub claim_types : Option (List String)
  pub keywords : Option (List Text)
  pub inspect_description : Text

pub record PatternDefinition : Type 0 where
  pub pattern_id : String
  pub name_zh : String
  pub observation_template : String
  pub required_filters : List ClaimPropertyFilter
  pub inspect_description : Text

pub data TriggerStatus : Type 0 where
  triggered not_triggered insufficient_evidence : TriggerStatus

-- A filter as it is named to the reader: its description, or `filter_{i}` if that is empty.
pub data FilterLabel : Type 0 where
  described : Text → FilterLabel
  numbered : ℕ → FilterLabel

pub record TriggerResult : Type 0 where
  pub status : TriggerStatus
  pub source_claims : List ClaimEntry
  pub missing_keys : List FilterLabel
  pub generated_observation : String

-- `not (allowed and value not in allowed)`
unfoldable pub is_allowed : Option (List String) → String → Bool
is_allowed none value = true
is_allowed (some []) value = true
is_allowed (some (k ∷ ks)) value = contains (k ∷ ks) value

unfoldable pub is_recurring_as : Option Bool → Option Bool → Bool
is_recurring_as none recurring = true
is_recurring_as (some true) recurring = or_default recurring true
is_recurring_as (some false) recurring = not (or_default recurring true)

unfoldable pub speaks_of : Option (List Text) → Text → Bool
speaks_of none claim = true
speaks_of (some []) claim = true
speaks_of (some (k ∷ ks)) claim = any_in_lower (k ∷ ks) claim

-- No test of the loop body skips the claim.
unfoldable pub matches : ClaimPropertyFilter → ClaimEntry → Bool
matches f c =
    is_allowed f.section_keys c.section_key
    && is_allowed f.materiality c.materiality
    && is_recurring_as f.recurring c.recurring
    && is_allowed f.claim_types c.claim_type
    && speaks_of f.keywords c.claim

unfoldable pub find_matching_claims : List ClaimEntry → ClaimPropertyFilter → List ClaimEntry
find_matching_claims claims f = select (matches f) claims

unfoldable pub filter_label : ℕ → ClaimPropertyFilter → FilterLabel
filter_label i f =
    if f.inspect_description == [] then numbered i else described f.inspect_description

-- One turn of the loop over the filters, before what the later turns append.
unfoldable pub add_matched :
    List ClaimEntry
    → FilterLabel
    → (List (List ClaimEntry)) × (List FilterLabel)
    → (List (List ClaimEntry)) × (List FilterLabel)
add_matched [] label (groups, missing) = (groups, label ∷ missing)
add_matched (c ∷ cs) label (groups, missing) = ((c ∷ cs) ∷ groups, missing)

-- `matched_per_filter` and `missing`, from the filter of number `i` on.
unfoldable pub match_filters :
    ℕ → List ClaimPropertyFilter → List ClaimEntry → (List (List ClaimEntry)) × (List FilterLabel)
unfolding find_matching_claims filter_label add_matched
match_filters i [] claims = ([], [])
match_filters i (f ∷ fs) claims =
    add_matched (find_matching_claims claims f) (filter_label i f) (match_filters (suc i) fs claims)

-- The loop that keeps the first claim of each identifier.
unfoldable pub unique_claims : List String → List ClaimEntry → List ClaimEntry
unique_claims seen [] = []
unique_claims seen (c ∷ cs) =
    let known = contains seen c.claim_id in
    let rest = unique_claims (if known then seen else c.claim_id ∷ seen) cs in
    if known then rest else c ∷ rest

unfoldable pub found_result : PatternDefinition → List ClaimEntry → TriggerResult
found_result pattern [] = record {
  status = not_triggered;
  source_claims = [];
  missing_keys = [];
  generated_observation = "";
}
found_result pattern (c ∷ cs) = record {
  status = triggered;
  source_claims = c ∷ cs;
  missing_keys = [];
  generated_observation = pattern.observation_template;
}

unfoldable pub trigger_result :
    PatternDefinition → (List (List ClaimEntry)) × (List FilterLabel) → TriggerResult
unfolding found_result unique_claims
trigger_result pattern (groups, m ∷ ms) = record {
  status = insufficient_evidence;
  source_claims = [];
  missing_keys = m ∷ ms;
  generated_observation = "";
}
trigger_result pattern (groups, []) =
    found_result pattern (unique_claims [] (concat_map (λ g. g) groups))

unfoldable pub evaluate_pattern : PatternDefinition → List ClaimEntry → TriggerResult
unfolding match_filters trigger_result
evaluate_pattern pattern claims =
    trigger_result pattern (match_filters 0 pattern.required_filters claims)

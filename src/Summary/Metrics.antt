-- ===== src/Summary/Metrics.antt =====
-- How services/summarization reads a metric, a change and a direction from a claim, and weighs it:
-- `_match_metric`, `_extract_delta`, `_direction_from_text`, `_calc_impact`.
pub mod Laws
use financial_pdf_reader.Base.Dict
use financial_pdf_reader.Base.Decimal.{Decimal, abs_ge, abs_lt, is_positive, is_negative}
use financial_pdf_reader.Base.{ℕ, zero, suc, ◌+◌, ◌-◌, ◌%◌, min}
use financial_pdf_reader.Base.{String}
use financial_pdf_reader.Base.{Bool, true, false, ◌&&◌, ◌||◌, Option, none, some}
use financial_pdf_reader.Base.{List, [], ◌∷◌, eqb, if◌then◌else◌}
use financial_pdf_reader.Base.{drop}
use financial_pdf_reader.Base.{◌==◌, nat_eq, string_eq, text_eq}
use financial_pdf_reader.Text.{Text, codes, texts, lower, starts_with, is_in, any_in}
use financial_pdf_reader.Text.{any_in_lower, is_space}
use financial_pdf_reader.Text.Strip.{lstrip_by}
pub use financial_pdf_reader.Text.Numerals.{digit_of, scan_digits, scan_fraction, scan_number}
use financial_pdf_reader.Models.{Confidence, high, medium, low}

-- `_METRIC_REGISTRY`
abbrev pub metric_registry : List (String × List Text)
metric_registry =
    ("revenue", texts ("營收" ∷ "收入" ∷ "revenue" ∷ []))
    ∷ ("gross_margin", texts ("毛利率" ∷ "gross margin" ∷ []))
    ∷ ("operating_income", texts ("營業利益" ∷ "operating income" ∷ "營業淨利" ∷ []))
    ∷ ("eps", texts ("eps" ∷ "每股盈餘" ∷ "每股" ∷ []))
    ∷ ("cash", texts ("現金" ∷ "cash" ∷ []))
    ∷ ("debt", texts ("負債" ∷ "借款" ∷ "debt" ∷ []))
    ∷ ("fx", texts ("匯率" ∷ "匯兌" ∷ "fx" ∷ []))
    ∷ ("customer_concentration", texts ("客戶集中" ∷ "單一客戶" ∷ "concentration" ∷ []))
    ∷ []

unfoldable pub first_match : List (String × List Text) → Text → Option String
first_match [] claim = none
first_match ((metric, keywords) ∷ rest) claim =
    if any_in_lower keywords claim then some metric else first_match rest claim

-- `_match_metric`
unfoldable pub match_metric : Text → Option String
unfolding first_match
match_metric claim = first_match metric_registry claim

-- `\s*(pp|%)` at the start of a text.
unfoldable pub scan_unit : Text → Bool
unfolding lstrip_by starts_with
scan_unit s =
    let rest = lstrip_by is_space s in starts_with rest (codes "pp") || starts_with rest (codes "%")

-- The whole pattern without its sign.
unfoldable pub unsigned_delta : Bool → Text → Option Decimal
unfolding scan_number scan_unit
unsigned_delta negative s = elim (scan_number s) [
  | none ↦ none
  | some (value, places, rest) ↦
      if scan_unit rest
      then some (record { negative = negative; digits = value; places = places })
      else none
]

-- `[+-]?\d+(?:\.\d+)?\s*(pp|%)` at one position.
unfoldable pub delta_at : Text → Option Decimal
unfolding unsigned_delta
delta_at [] = none
delta_at (c ∷ s) =
    if eqb c b'-'
    then unsigned_delta true s
    else if eqb c b'+'
    then unsigned_delta false s
    else unsigned_delta false (c ∷ s)

-- `re.search`: the first position with a match.
unfoldable pub search_delta : Text → Option Decimal
unfolding delta_at
search_delta [] = none
search_delta (c ∷ s) =
    let rest = search_delta s in elim (delta_at (c ∷ s)) [ none ↦ rest | some d ↦ some d ]

-- Words that say which way a figure went; the English ones are looked for in the lower case.
abbrev pub says_down : Text → Bool
says_down claim =
    any_in (texts ("下降" ∷ "減少" ∷ [])) claim || any_in (texts ("drop" ∷ "down" ∷ [])) (lower claim)

abbrev pub says_up : Text → Bool
says_up claim = any_in (texts ("增加" ∷ "成長" ∷ [])) claim || is_in (codes "up") (lower claim)

abbrev pub apply_words : Text → Decimal → Decimal
apply_words claim d =
    if says_down claim
    then record d { negative = true }
    else if says_up claim
    then record d { negative = false }
    else d

-- `_extract_delta`
unfoldable pub extract_delta : Text → Option Decimal
unfolding search_delta
extract_delta claim = elim (search_delta (lower claim)) [
  | none ↦ none
  | some d ↦ some (apply_words claim d)
]

-- A direction, one of `TREND_ENUM`.
pub data Direction : Type 0 where
  up down flat : Direction

abbrev pub direction_name : Direction → String
direction_name up = "up"
direction_name down = "down"
direction_name flat = "flat"

-- `_direction_from_text`
unfoldable pub direction_from_text : Text → Option Decimal → Direction
direction_from_text claim (some d) =
    if is_positive d then up else if is_negative d then down else flat
direction_from_text claim none =
    if any_in (texts ("下降" ∷ "減少" ∷ "衰退" ∷ "drop" ∷ "down" ∷ [])) (lower claim)
    then down
    else if any_in (texts ("增加" ∷ "成長" ∷ "提升" ∷ "up" ∷ "increase" ∷ [])) (lower claim)
    then up
    else flat

abbrev pub is_down : Direction → Bool
is_down down = true
is_down _ = false

-- `_IMPACT_RANK[_METRIC_BASE_IMPACT.get(metric_id, "medium")]`
unfoldable pub base_rank : String → ℕ
base_rank metric =
    if metric == "gross_margin" || metric == "operating_income" || metric == "eps"
    then 2
    else if metric == "fx" || metric == "customer_concentration"
    then 0
    else 1

-- The step for the size of the change.
abbrev pub size_step : Option Decimal → ℕ → ℕ
size_step none rank = rank
size_step (some d) rank =
    if abs_ge d 15 then min (rank + 1) 2 else if abs_lt d 2 then rank - 1 else rank

-- The step for a fall of a metric of `_DOWN_ESCALATE_METRICS`.
abbrev pub fall_step : Bool → Option Decimal → ℕ → ℕ
fall_step escalates none rank = rank
fall_step escalates (some d) rank = if escalates && abs_ge d 10 then min (rank + 1) 2 else rank

unfoldable pub impact_rank : String → Option Decimal → Direction → ℕ
unfolding base_rank
impact_rank metric delta direction =
    fall_step (is_down direction && (metric == "revenue" || metric == "cash")) delta
      (size_step delta (base_rank metric))

-- `_IMPACT_LABEL`; `none` where Python's lookup of the rank would fail.
abbrev pub impact_label : ℕ → Option Confidence
impact_label zero = some low
impact_label (suc zero) = some medium
impact_label (suc (suc zero)) = some high
impact_label (suc (suc (suc n))) = none

-- `_calc_impact`
unfoldable pub calc_impact : String → Option Decimal → Direction → Option Confidence
unfolding impact_rank
calc_impact metric delta direction = impact_label (impact_rank metric delta direction)

-- ===== src/Text/Blocks.antt =====
-- The JSON block of a reply, as services/summarization and services/disclosure_coverage cut it out.
use financial_pdf_reader.Base.{Option, none, some, [], ◌∷◌, eqb, if◌then◌else◌}
use financial_pdf_reader.Text.{Text}

-- `s[:s.rindex("}") + 1]`, or nothing where `rindex` raises.
unfoldable pub up_to_brace : Text → Option Text
up_to_brace [] = none
up_to_brace (c ∷ s) = elim (up_to_brace s) [
  | some t ↦ some (c ∷ t)
  | none ↦ if eqb c b'}' then some (c ∷ []) else none
]

-- `s[s.index("{"):s.rindex("}") + 1]`, or nothing where a brace is missing. Where the last "}" comes
-- before the first "{" the slice is empty, which `json.loads` refuses; that is no block either.
unfoldable pub json_block : Text → Option Text
unfolding up_to_brace
json_block [] = none
json_block (c ∷ s) =
    let rest = json_block s in
    if eqb c b'{' then elim (up_to_brace s) [ some t ↦ some (c ∷ t) | none ↦ none ] else rest

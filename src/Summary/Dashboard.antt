-- ===== src/Summary/Dashboard.antt =====
-- `_build_dashboard_payload` of services/summarization.
--
-- `round` on quotients is a parameter: `percent n d` is `round(n / d * 100, 1)` in tenths.
pub mod Contract
pub mod Priority
use financial_pdf_reader.Base.Dict
use financial_pdf_reader.Base.Dict.{Dict}
use financial_pdf_reader.Contract.{metric_types, contract_version}
use financial_pdf_reader.Summary.Metrics.{
  match_metric, extract_delta, direction_from_text, calc_impact,
}
use financial_pdf_reader.Base.{ℕ, ◌+◌, ◌-◌}
use financial_pdf_reader.Base.{String}
use financial_pdf_reader.Base.{Bool, true, false, not, ◌&&◌, ◌||◌, Option, none, some}
use financial_pdf_reader.Base.{List, [], ◌∷◌, ◌++◌, map, ltb, leb, eqb, if◌then◌else◌}
use financial_pdf_reader.Base.{or_default, length}
use financial_pdf_reader.Base.{is_empty, select, count_if, opt_list, string_eq}
use financial_pdf_reader.Text.{Text, codes}
use financial_pdf_reader.Models.{
  Materiality, tier_a, tier_b, tier_c, Confidence, high, medium, low, AiClaim,
}
use financial_pdf_reader.Summary.Entries.{
  MetricEntry, ChangeEntry, CausalEdge, Adjustment, Transparency, Dashboard, Metrics,
}
use financial_pdf_reader.Summary.Risks.{
  claims_of, concentration_risk, margin_risk, liquidity_risk, fx_risk,
}

-- `{"tier_a": 3, "tier_b": 2, "tier_c": 1}.get(c.materiality, 1)`
abbrev pub priority_of : Materiality → ℕ
priority_of tier_a = 3
priority_of tier_b = 2
priority_of tier_c = 1

-- The word in title case: its first letter upper case, the others lower case. The flag is set at
-- the start of a word.
abbrev pub title_char : Bool → ℕ → ℕ
title_char true c = if leb b'a' c && leb c b'z' then c - 32 else c
title_char false c = if leb b'A' c && leb c b'Z' then c + 32 else c

abbrev pub is_letter : ℕ → Bool
is_letter c = (leb b'a' c && leb c b'z') || (leb b'A' c && leb c b'Z')

-- `metric.replace("_", " ").title()`, for the ASCII names of the registry.
unfoldable pub title_label : Bool → Text → Text
title_label start [] = []
title_label start (c ∷ s) =
    (if eqb c b'_' then b' ' else title_char start c) ∷ title_label (not (is_letter c)) s

unfoldable pub metric_entry : String → AiClaim → MetricEntry
unfolding title_label
metric_entry metric c =
    let delta = extract_delta c.claim in
    record {
      metric_id = metric;
      metric_type = or_default (Dict.lookup metric metric_types) "other";
      label = title_label true (codes metric);
      direction = direction_from_text c.claim delta;
      delta_pct = delta;
      evidence_claim_ids = c.claim_id ∷ [];
      priority = priority_of c.materiality;
      claim_text = c.claim;
      confidence = c.confidence;
    }

-- `if current and current["priority"] > priority: continue`
abbrev pub keeps : Option MetricEntry → MetricEntry → Bool
keeps none new = false
keeps (some current) new = ltb new.priority current.priority

-- One round of the loop over the clean claims.
unfoldable pub add_metric : AiClaim → Metrics → Metrics
add_metric c metrics = elim (match_metric c.claim) [
  | none ↦ metrics
  | some metric ↦
      if keeps (Dict.lookup metric metrics) (metric_entry metric c)
      then metrics
      else Dict.insert metric (metric_entry metric c) metrics
]

unfoldable pub collect_metrics : Metrics → List AiClaim → Metrics
unfolding add_metric
collect_metrics metrics [] = metrics
collect_metrics metrics (c ∷ cs) = collect_metrics (add_metric c metrics) cs

abbrev pub change_entry : String → MetricEntry → ChangeEntry
change_entry key m = record {
  metric_id = m.metric_id;
  metric_type = m.metric_type;
  label = m.label;
  direction = m.direction;
  delta_pct = m.delta_pct;
  evidence_claim_ids = m.evidence_claim_ids;
  impact = calc_impact key m.delta_pct m.direction;
  claim_text = m.claim_text;
  confidence = m.confidence;
}

abbrev pub changed_keys : List String
changed_keys = "revenue" ∷ "gross_margin" ∷ "operating_income" ∷ "eps" ∷ "cash" ∷ []

unfoldable pub what_changed_of : Metrics → List String → List ChangeEntry
what_changed_of metrics [] = []
what_changed_of metrics (key ∷ keys) =
    map (change_entry key) (opt_list (Dict.lookup key metrics)) ++ what_changed_of metrics keys

-- One causal edge, if both metrics are there.
abbrev pub edge_between :
    String → String → Confidence → Option MetricEntry → Option MetricEntry → List CausalEdge
edge_between source target confidence (some m) (some n) =
    record {
      source_metric = source;
      target_metric = target;
      relation = "positive_driver";
      confidence = confidence;
      evidence_claim_ids = m.evidence_claim_ids ++ n.evidence_claim_ids;
    }
    ∷ []
edge_between source target confidence none n = []
edge_between source target confidence (some m) none = []

unfoldable pub edge : Metrics → String → String → Confidence → List CausalEdge
edge metrics source target confidence =
    edge_between source target confidence (Dict.lookup source metrics) (Dict.lookup target metrics)

unfoldable pub causal_edges_of : Metrics → List CausalEdge
unfolding edge
causal_edges_of metrics =
    edge metrics "revenue" "gross_margin" medium
    ++ (edge metrics "gross_margin" "operating_income" high
        ++ edge metrics "operating_income" "eps" high)

unfoldable pub adjustments_of : List AiClaim → List Adjustment
adjustments_of claims =
    map
      (λ c. record {
        claim_id = c.claim_id;
        claim = c.claim;
        metric_id = match_metric c.claim;
        evidence_claim_ids = c.claim_id ∷ [];
        requires_human_review = c.requires_human_review;
        comparability = low;
      })
      (select (λ c. not c.recurring) claims)

module _ (percent : ℕ → ℕ → ℕ) where
  unfoldable pub transparency_of : List AiClaim → List AiClaim → Bool → Bool → ℕ → ℕ → Transparency
  transparency_of clean all_claims consistent flag score weighted = record {
    evidence_coverage_pct =
        if is_empty clean
        then 0
        else percent (count_if (λ c. not (is_empty c.evidence)) clean) (length clean);
    temporal_consistent = consistent;
    non_recurring_count = length (adjustments_of clean);
    contaminated_count = count_if (λ c. c.contaminated) all_claims;
    narrative_density_score = score;
    narrative_density_weighted_score = weighted;
    narrative_flag = flag;
    human_review_count = count_if (λ c. c.requires_human_review) clean;
  }

  unfoldable pub build_dashboard_payload :
      List AiClaim → List AiClaim → Bool → Bool → ℕ → ℕ → Dashboard
  build_dashboard_payload clean all_claims consistent flag score weighted =
      let metrics = collect_metrics [] clean in
      let what_changed = what_changed_of metrics changed_keys in
      record {
        contract_version = contract_version;
        metrics = Dict.values metrics;
        what_changed = what_changed;
        causal_edges = causal_edges_of metrics;
        adjustments = adjustments_of clean;
        risk_surface =
            concentration_risk (claims_of "customer_concentration" clean)
            ∷ margin_risk what_changed
            ∷ liquidity_risk (claims_of "cash" clean)
            ∷ fx_risk (claims_of "fx" clean)
            ∷ [];
        transparency = transparency_of clean all_claims consistent flag score weighted;
      }

-- ===== src/Summary/Risks.antt =====
-- The `risk_panel` of `_build_dashboard_payload` in services/summarization.
use financial_pdf_reader.Base.Decimal.{Decimal, abs_ge, is_negative}
use financial_pdf_reader.Contract.{reason, gross_margin_drop_pp}
use financial_pdf_reader.Summary.Metrics.{match_metric, up, flat}
use financial_pdf_reader.Base.{ℕ}
use financial_pdf_reader.Base.{String}
use financial_pdf_reader.Base.{Bool, false, not, Option, none, some}
use financial_pdf_reader.Base.{List, [], ◌∷◌, ◌++◌, map, if◌then◌else◌}
use financial_pdf_reader.Base.{is_some, take}
use financial_pdf_reader.Base.{is_empty, select}
use financial_pdf_reader.Base.{◌==◌, nat_eq, string_eq, text_eq}
use financial_pdf_reader.Models.{high, medium, low, AiClaim}
use financial_pdf_reader.Summary.Entries.{ChangeEntry, Risk}

-- The first negative change of the gross margin; `none` stands for the 0.0 of a missing one.
unfoldable gross_margin_drop : List ChangeEntry → Option Decimal
gross_margin_drop [] = none
gross_margin_drop (w ∷ ws) =
    let rest = gross_margin_drop ws in
    if w.metric_id == "gross_margin"
    then (elim w.delta_pct [ none ↦ rest | some d ↦ if is_negative d then some d else rest ])
    else rest

abbrev drop_ge : Option Decimal → ℕ → Bool
drop_ge none n = false
drop_ge (some d) n = abs_ge d n

abbrev pub claims_of : String → List AiClaim → List AiClaim
claims_of metric = select (λ c. elim (match_metric c.claim) [ none ↦ false | some m ↦ m == metric ])

abbrev ids : List AiClaim → List String
ids = map (λ c. c.claim_id)

-- `[m["evidence_claim_ids"][0] for m in what_changed if ...]`
unfoldable margin_ids : List ChangeEntry → List String
margin_ids [] = []
margin_ids (w ∷ ws) =
    (if w.metric_id == "gross_margin" then take 1 w.evidence_claim_ids else []) ++ margin_ids ws

unfoldable pub concentration_risk : List AiClaim → Risk
concentration_risk claims =
    let found = not (is_empty claims) in
    record {
      risk_id = "customer_concentration";
      label = "Customer concentration";
      severity = if found then high else medium;
      severity_reason =
          reason
            (if found then "customer_concentration_claim_present" else "no_explicit_ratio_claim");
      trend = if found then up else flat;
      evidence_claim_ids = ids (take 3 claims);
      rule_id = "RISK-CUST-001";
    }

unfoldable pub margin_risk : List ChangeEntry → Risk
unfolding gross_margin_drop margin_ids
margin_risk what_changed =
    let drop_pp = gross_margin_drop what_changed in
    record {
      risk_id = "margin_pressure";
      label = "Margin pressure";
      severity = if drop_ge drop_pp 10 then high else if drop_ge drop_pp 5 then medium else low;
      severity_reason = gross_margin_drop_pp drop_pp;
      trend = if is_some drop_pp then up else flat;
      evidence_claim_ids = margin_ids what_changed;
      rule_id = "RISK-MARGIN-010PP";
    }

unfoldable pub liquidity_risk : List AiClaim → Risk
liquidity_risk claims =
    let missing = is_empty claims in
    record {
      risk_id = "liquidity";
      label = "Liquidity pressure";
      severity = if missing then medium else low;
      severity_reason = reason (if missing then "cash_claim_missing" else "cash_claim_present");
      trend = if missing then up else flat;
      evidence_claim_ids = ids (take 3 claims);
      rule_id = "RISK-LIQ-001";
    }

unfoldable pub fx_risk : List AiClaim → Risk
fx_risk claims =
    let found = not (is_empty claims) in
    record {
      risk_id = "fx_exposure";
      label = "FX exposure";
      severity = if found then medium else low;
      severity_reason = reason (if found then "fx_claim_present" else "fx_claim_missing");
      trend = if found then up else flat;
      evidence_claim_ids = ids (take 3 claims);
      rule_id = "RISK-FX-001";
    }

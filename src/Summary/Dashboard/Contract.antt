-- ===== src/Summary/Dashboard/Contract.antt =====
-- The payload that the summary builds always meets the dashboard contract.
use financial_pdf_reader.Base.{ℕ}
use financial_pdf_reader.Base.{String, ◌≡◌, refl, inl, inr}
use financial_pdf_reader.Base.{Bool, true, false, Option, none, some}
use financial_pdf_reader.Base.{List, [], ◌∷◌, ◌++◌, map, arith}
use financial_pdf_reader.Base.{Option-cases}
use financial_pdf_reader.Base.{is_empty}
use financial_pdf_reader.Base.{All, eq_iff, nat_eq, string_eq, text_eq, contains}
use financial_pdf_reader.Models.{Confidence, high, medium, low, AiClaim}
use financial_pdf_reader.Base.Dict
use financial_pdf_reader.Base.Dict.{Dict}
use mathlib.Core.List.{append-nil}
use financial_pdf_reader.Base.{concat_map}
use financial_pdf_reader.Summary.Metrics.{match_metric, Direction, direction_name, up, down, flat}
use financial_pdf_reader.Contract.{
  severity_enum, trend_enum, MetricDict, EdgeDict, RiskDict, PayloadDict, metric_errors,
  edge_errors, risk_errors, validate_dashboard_contract_v1,
}
use financial_pdf_reader.Summary.Entries.{MetricEntry, CausalEdge, Risk, Dashboard, Metrics}
use financial_pdf_reader.Summary.Dashboard.{
  metric_entry, add_metric, collect_metrics, edge_between, edge, causal_edges_of,
  build_dashboard_payload,
}

abbrev pub confidence_name : Confidence → String
confidence_name high = "high"
confidence_name medium = "medium"
confidence_name low = "low"

-- The entries of the payload as the dicts that the validator reads.
abbrev pub metric_dict : MetricEntry → MetricDict
metric_dict m = record {
  metric_id = some m.metric_id;
  metric_type = some m.metric_type;
  direction = some (direction_name m.direction);
  evidence_claim_ids = some m.evidence_claim_ids;
}

abbrev pub edge_dict : CausalEdge → EdgeDict
edge_dict e = record {
  source_metric = some e.source_metric;
  target_metric = some e.target_metric;
  relation = some e.relation;
  evidence_claim_ids = some e.evidence_claim_ids;
}

abbrev pub risk_dict : Risk → RiskDict
risk_dict r = record {
  risk_id = some r.risk_id;
  severity = some (confidence_name r.severity);
  trend = some (direction_name r.trend);
  severity_reason = some r.severity_reason;
}

abbrev pub payload_dict : Dashboard → PayloadDict
payload_dict d = record {
  contract_version = some d.contract_version;
  metrics = some (map metric_dict d.metrics);
  causal_edges = some (map edge_dict d.causal_edges);
  risk_surface = some (map risk_dict d.risk_surface);
}

-- An entry of the metrics is filed under its own name and cites a claim.
abbrev pub IsFiled : String × MetricEntry → Type 0
IsFiled (k, m) = (m.metric_id ≡ k) × (is_empty m.evidence_claim_ids ≡ false)

pub lookup-IsFiled :
    (k : String) (ms : Metrics) (m : MetricEntry)
    → All IsFiled ms
    → Dict.lookup k ms ≡ some m
    → IsFiled (k, m)
unfolding Dict.lookup
lookup-IsFiled k [] m h e = absurd (cc)
lookup-IsFiled k ((j, w) ∷ ms) m (h, hs) e = ground (arith, eq_iff k j, lookup-IsFiled k ms m hs)

insert-IsFiled :
    (k : String) (m : MetricEntry) (ms : Metrics)
    → IsFiled (k, m)
    → All IsFiled ms
    → All IsFiled (Dict.insert k m ms)
unfolding Dict.insert
insert-IsFiled k m [] h hs = (h, tt)
insert-IsFiled k m ((j, w) ∷ ms) h (g, gs) = ground (arith, eq_iff k j, insert-IsFiled k m ms h gs)

add_metric-IsFiled : (c : AiClaim) (ms : Metrics) → All IsFiled ms → All IsFiled (add_metric c ms)
unfolding add_metric metric_entry
add_metric-IsFiled c ms h = elim (Option-cases (match_metric c.claim)) [
  | inl e ↦ rw (e, add_metric) h
  | inr (k, e) ↦ ground (arith, e, insert-IsFiled k (metric_entry k c) ms (refl, refl) h)
]

pub collect_metrics-IsFiled :
    (cs : List AiClaim) (ms : Metrics) → All IsFiled ms → All IsFiled (collect_metrics ms cs)
unfolding collect_metrics
collect_metrics-IsFiled [] ms h = h
collect_metrics-IsFiled (c ∷ cs) ms h =
    collect_metrics-IsFiled cs (add_metric c ms) (add_metric-IsFiled c ms h)

direction_name-valid : (d : Direction) → contains trend_enum (direction_name d) ≡ true
direction_name-valid up = refl
direction_name-valid down = refl
direction_name-valid flat = refl

confidence_name-valid : (c : Confidence) → contains severity_enum (confidence_name c) ≡ true
confidence_name-valid high = refl
confidence_name-valid medium = refl
confidence_name-valid low = refl

metric_errors-eq-nil :
    (m : MetricEntry) → is_empty m.evidence_claim_ids ≡ false → metric_errors (metric_dict m) ≡ []
unfolding metric_errors
metric_errors-eq-nil m h = ground (arith, direction_name-valid m.direction)

metrics-eq-nil :
    (ms : Metrics)
    → All IsFiled ms
    → concat_map metric_errors (map metric_dict (Dict.values ms)) ≡ []
metrics-eq-nil [] h = refl
metrics-eq-nil ((k, m) ∷ ms) ((_, h), hs) = rw (metric_errors-eq-nil m h, metrics-eq-nil ms hs) refl

risk_errors-eq-nil : (r : Risk) → risk_errors (risk_dict r) ≡ []
unfolding risk_errors
risk_errors-eq-nil r =
    ground (arith, direction_name-valid r.trend, confidence_name-valid r.severity)

risks-eq-nil : (rs : List Risk) → concat_map risk_errors (map risk_dict rs) ≡ []
risks-eq-nil [] = refl
risks-eq-nil (r ∷ rs) = rw (risk_errors-eq-nil r, risks-eq-nil rs) refl

is_empty-append_left : (xs ys : List String) → is_empty xs ≡ false → is_empty (xs ++ ys) ≡ false
is_empty-append_left [] ys h = cc
is_empty-append_left (x ∷ xs) ys h = refl

edge_between-eq-nil :
    (s t : String) (c : Confidence) (a b : Option MetricEntry) (rest : List CausalEdge)
    → ((m : MetricEntry) → a ≡ some m → is_empty m.evidence_claim_ids ≡ false)
    → concat_map edge_errors (map edge_dict rest) ≡ []
    → concat_map edge_errors (map edge_dict (edge_between s t c a b ++ rest)) ≡ []
unfolding edge_errors
edge_between-eq-nil s t c none b rest h k = k
edge_between-eq-nil s t c (some m) none rest h k = k
edge_between-eq-nil s t c (some m) (some n) rest h k =
    rw (is_empty-append_left m.evidence_claim_ids n.evidence_claim_ids (h m refl)) k

edge-eq-nil :
    (ms : Metrics) (s t : String) (c : Confidence) (rest : List CausalEdge)
    → All IsFiled ms
    → concat_map edge_errors (map edge_dict rest) ≡ []
    → concat_map edge_errors (map edge_dict (edge ms s t c ++ rest)) ≡ []
unfolding edge
edge-eq-nil ms s t c rest h k =
    edge_between-eq-nil s t c (Dict.lookup s ms) (Dict.lookup t ms) rest
      (λ m e. (lookup-IsFiled s ms m h e).1) k

edges-eq-nil :
    (ms : Metrics)
    → All IsFiled ms
    → concat_map edge_errors (map edge_dict (causal_edges_of ms)) ≡ []
unfolding causal_edges_of
edges-eq-nil ms h = edge-eq-nil ms "revenue" "gross_margin" medium _ h (
    edge-eq-nil ms "gross_margin" "operating_income" high _ h (
      rw (← append-nil (edge ms "operating_income" "eps" high))
        (edge-eq-nil ms "operating_income" "eps" high [] h refl)))

-- Whatever the claims are, the payload that the summary builds has no contract error.
pub validate-build_dashboard_payload :
    (percent : ℕ → ℕ → ℕ) (clean all_claims : List AiClaim) (consistent flag : Bool)
    (score weighted : ℕ)
    → validate_dashboard_contract_v1 (
        payload_dict
          (build_dashboard_payload percent clean all_claims consistent flag score weighted))
      ≡ []
unfolding validate_dashboard_contract_v1 build_dashboard_payload
validate-build_dashboard_payload percent clean all_claims consistent flag score weighted =
    let ms = collect_metrics [] clean in
    let filed = collect_metrics-IsFiled clean [] tt in
    rw (metrics-eq-nil ms filed, edges-eq-nil ms filed)
      (risks-eq-nil
        (build_dashboard_payload percent clean all_claims consistent flag score
          weighted).risk_surface)

-- ===== src/Summary/Metrics/Laws.antt =====
-- The weight of a change: always one of the three labels, and never less for a larger change.
use financial_pdf_reader.Base.{ℕ, zero, suc, ◌≤◌}
use financial_pdf_reader.Base.{String, ◌≡◌, ◌∙◌, refl}
use financial_pdf_reader.Base.{Bool, ◌&&◌, ◌||◌, Option, none, some}
use financial_pdf_reader.Base.{arith}
use financial_pdf_reader.Base.{◌==◌, nat_eq, string_eq, text_eq}
use financial_pdf_reader.Models.{Confidence, high, medium, low}
use financial_pdf_reader.Base.Decimal.{Decimal, AbsLe, abs_ge_mono, abs_lt-eq-not}
use financial_pdf_reader.Summary.Metrics.{
  Direction, is_down, base_rank, size_step, fall_step, impact_rank, impact_label, calc_impact,
}

base_rank-le : (metric : String) → base_rank metric ≤ 2
unfolding base_rank
base_rank-le metric = ground arith

impact_rank-le :
    (metric : String) (delta : Option Decimal) (direction : Direction)
    → impact_rank metric delta direction ≤ 2
unfolding impact_rank
impact_rank-le metric none direction = base_rank-le metric
impact_rank-le metric (some d) direction = ground (arith, base_rank-le metric)

impact_rank-none :
    (metric : String) (direction : Direction) → impact_rank metric none direction ≡ base_rank metric
unfolding impact_rank
impact_rank-none metric direction = refl

size_step_mono :
    (d e : Decimal) (rank : ℕ)
    → rank ≤ 2
    → AbsLe d e
    → size_step (some d) rank ≤ size_step (some e) rank
size_step_mono d e rank r h =
    ground (arith, abs_ge_mono d e 15 h, abs_ge_mono d e 2 h, abs_lt-eq-not d 2, abs_lt-eq-not e 2)

fall_step_mono :
    (b : Bool) (d e : Decimal) (m n : ℕ)
    → m ≤ n
    → n ≤ 2
    → AbsLe d e
    → fall_step b (some d) m ≤ fall_step b (some e) n
fall_step_mono b d e m n le r h = ground (arith, abs_ge_mono d e 10 h)

size_step-le : (d : Decimal) (rank : ℕ) → rank ≤ 2 → size_step (some d) rank ≤ 2
size_step-le d rank h = ground arith

impact_rank_mono :
    (metric : String) (d e : Decimal) (direction : Direction)
    → AbsLe d e
    → impact_rank metric (some d) direction ≤ impact_rank metric (some e) direction
unfolding impact_rank
impact_rank_mono metric d e direction h =
    let b = base_rank metric in
    fall_step_mono (is_down direction && (metric == "revenue" || metric == "cash")) d e
      (size_step (some d) b) (size_step (some e) b) (size_step_mono d e b (base_rank-le metric) h)
      (size_step-le e b (base_rank-le metric)) h

-- The level of an impact: low, medium, high.
abbrev pub level_rank : Confidence → ℕ
level_rank high = 2
level_rank medium = 1
level_rank low = 0

impact_label_lem :
    (n : ℕ) → n ≤ 2 → (c : Confidence) × (impact_label n ≡ some c) × (level_rank c ≡ n)
impact_label_lem zero h = (low, refl, refl)
impact_label_lem (suc zero) h = (medium, refl, refl)
impact_label_lem (suc (suc zero)) h = (high, refl, refl)
impact_label_lem (suc (suc (suc n))) h = absurd (omega arith)

-- The impact is always one of the three labels. Without a figure it is the base label of the metric;
-- and with the same metric and direction a change that is at least as large never weighs less.
pub calc_impact_mono :
    (metric : String) (d e : Decimal) (direction : Direction)
    → AbsLe d e
    → (b : Confidence) × (i : Confidence) × (j : Confidence) × (calc_impact metric none direction
        ≡ some b)
      × (calc_impact metric (some d) direction ≡ some i)
      × (calc_impact metric (some e) direction ≡ some j)
      × (level_rank b ≡ base_rank metric)
      × (level_rank i ≤ level_rank j)
unfolding calc_impact
calc_impact_mono metric d e direction h =
    let (b, o, k) = impact_label_lem _ (impact_rank-le metric none direction) in
    let (i, p, m) = impact_label_lem _ (impact_rank-le metric (some d) direction) in
    let (j, q, n) = impact_label_lem _ (impact_rank-le metric (some e) direction) in
    (
      b,
      i,
      j,
      o,
      p,
      q,
      k ∙ impact_rank-none metric direction,
      omega (arith, m, n, impact_rank_mono metric d e direction h),
    )

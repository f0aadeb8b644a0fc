-- ===== src/Summary/Dashboard/Priority.antt =====
-- Which claim a metric of the dashboard shows.
use financial_pdf_reader.Base.{ℕ, ◌≤◌, ◌<◌}
use financial_pdf_reader.Base.{String, ◌≡◌, refl, sym, ap, ◌∙◌, ◌≢◌, ◌⊎◌, inl, inr}
use financial_pdf_reader.Base.{Option, none, some}
use financial_pdf_reader.Base.{List, [], ◌∷◌, arith, if◌then◌else◌}
use financial_pdf_reader.Base.{Bool-cases, Option-cases}
use financial_pdf_reader.Base.{All, ◌==◌, eq_iff, nat_eq, string_eq, text_eq}
use financial_pdf_reader.Models.{Materiality, AiClaim}
use financial_pdf_reader.Base.Dict
use financial_pdf_reader.Base.Dict.{Dict}
use financial_pdf_reader.Summary.Metrics.{match_metric}
use financial_pdf_reader.Summary.Entries.{MetricEntry, Metrics}
use financial_pdf_reader.Summary.Dashboard.{
  priority_of, metric_entry, keeps, add_metric, collect_metrics,
}
use mathlib.Core.List.{Memᴰ}
use native.Mathlib.Nat.{le_trans}

-- The claims that speak of a metric.
abbrev pub Speaks : String → AiClaim → Type 0
Speaks metric c = match_metric c.claim ≡ some metric

-- What a metric shows after one more claim.
abbrev next_entry : String → AiClaim → Option MetricEntry → Option MetricEntry
next_entry metric c old =
    if keeps old (metric_entry metric c) then old else some (metric_entry metric c)

lookup-add_metric_same :
    (metric : String) (c : AiClaim) (ms : Metrics)
    → Speaks metric c
    → Dict.lookup metric (add_metric c ms) ≡ next_entry metric c (Dict.lookup metric ms)
unfolding add_metric
lookup-add_metric_same metric c ms e =
    rw (e, add_metric)
      (ground
        (arith, eq_iff metric metric, Dict.lookup-insert metric metric (metric_entry metric c) ms))

lookup-add_metric_other :
    (metric : String) (c : AiClaim) (ms : Metrics)
    → ¬ (Speaks metric c)
    → Dict.lookup metric (add_metric c ms) ≡ Dict.lookup metric ms
unfolding add_metric
lookup-add_metric_other metric c ms h = elim (Option-cases (match_metric c.claim)) [
  | inl e ↦ rw (e, add_metric) refl
  | inr (k, e) ↦
      let other : metric ≢ k = λ p. h (e ∙ ap some (sym p)) in
      rw (e, add_metric)
        (ground (arith, other, eq_iff metric k, Dict.lookup-insert metric k (metric_entry k c) ms))
]

Speaks-cases : (metric : String) (c : AiClaim) → Speaks metric c ⊎ ¬ (Speaks metric c)
Speaks-cases metric c = elim (Option-cases (match_metric c.claim)) [
  | inl e ↦ inr (λ p. cc)
  | inr (k, e) ↦ elim (Bool-cases (k == metric)) [
    | inl same ↦ inl (e ∙ ap some ((eq_iff k metric).0 same))
    | inr other ↦ inr (λ p. ground (arith, eq_iff k metric))
  ]
]

-- The priority that a metric shows, 0 if it is not there.
abbrev pub shown_priority : Option MetricEntry → ℕ
shown_priority none = 0
shown_priority (some m) = m.priority

next_entry-priority :
    (metric : String) (c : AiClaim) (old : Option MetricEntry)
    → (shown_priority old ≤ shown_priority (next_entry metric c old))
      × (priority_of c.materiality ≤ shown_priority (next_entry metric c old))
unfolding metric_entry
next_entry-priority metric c none = ground arith
next_entry-priority metric c (some m) = ground arith

priority_of-pos : (m : Materiality) → 0 < priority_of m
priority_of-pos m = ground arith

module _ (metric : String) where
  abbrev shown_in : Metrics → ℕ
  shown_in ms = shown_priority (Dict.lookup metric ms)

  add_metric-priority :
      (c : AiClaim) (ms : Metrics)
      → (shown_in ms ≤ shown_in (add_metric c ms))
        × (Speaks metric c → priority_of c.materiality ≤ shown_in (add_metric c ms))
  add_metric-priority c ms = elim (Speaks-cases metric c) [
    | inl speaks ↦
        let (up_to, own) = next_entry-priority metric c (Dict.lookup metric ms) in
        rw (lookup-add_metric_same metric c ms speaks) (up_to, λ _. own)
    | inr silent ↦
        rw (lookup-add_metric_other metric c ms silent)
          (omega arith, λ speaks. absurd (silent speaks))
  ]

  collect_metrics-priority :
      (cs : List AiClaim) (ms : Metrics)
      → (shown_in ms ≤ shown_in (collect_metrics ms cs))
        × All
            (λ c. Speaks metric c → priority_of c.materiality ≤ shown_in (collect_metrics ms cs))
            cs
  unfolding collect_metrics
  collect_metrics-priority [] ms = (omega arith, tt)
  collect_metrics-priority (c ∷ cs) ms =
      let (grows, own) = add_metric-priority c ms in
      let (later, rest) = collect_metrics-priority cs (add_metric c ms) in
      (le_trans grows later, ((λ speaks. le_trans (own speaks) later), rest))

  -- The entry of the metric is made from a listed claim that speaks of it.
  abbrev pub MadeFrom : List AiClaim → Option MetricEntry → Type 0
  MadeFrom cs o = (c : AiClaim) × Memᴰ c cs × Speaks metric c × (o ≡ some (metric_entry metric c))

  MadeFrom-cons :
      (d : AiClaim) (cs : List AiClaim) (o : Option MetricEntry)
      → MadeFrom cs o
      → MadeFrom (d ∷ cs) o
  MadeFrom-cons d cs o (c, listed, speaks, made) = (c, Memᴰ.tail listed, speaks, made)

  add_metric-origin :
      (c : AiClaim) (cs : List AiClaim) (ms : Metrics)
      → (Dict.lookup metric (add_metric c ms) ≡ Dict.lookup metric ms)
        ⊎ MadeFrom (c ∷ cs) (Dict.lookup metric (add_metric c ms))
  add_metric-origin c cs ms = elim (Speaks-cases metric c) [
    | inr silent ↦ inl (lookup-add_metric_other metric c ms silent)
    | inl speaks ↦
        let same = lookup-add_metric_same metric c ms speaks in
        elim (Bool-cases (keeps (Dict.lookup metric ms) (metric_entry metric c))) [
          | inl kept ↦ inl (same ∙ rw kept)
          | inr new ↦ inr (c, Memᴰ.head refl, speaks, same ∙ rw new)
        ]
  ]

  collect_metrics-origin :
      (cs : List AiClaim) (ms : Metrics)
      → (Dict.lookup metric (collect_metrics ms cs) ≡ Dict.lookup metric ms)
        ⊎ MadeFrom cs (Dict.lookup metric (collect_metrics ms cs))
  unfolding collect_metrics
  collect_metrics-origin [] ms = inl refl
  collect_metrics-origin (c ∷ cs) ms = elim (collect_metrics-origin cs (add_metric c ms)) [
    | inr made ↦ inr (MadeFrom-cons c cs _ made)
    | inl same ↦ elim (add_metric-origin c cs ms) [
      | inl kept ↦ inl (same ∙ kept)
      | inr made ↦ inr (rw same made)
    ]
  ]

  silent-All :
      (cs : List AiClaim) (n : ℕ)
      → n ≡ 0
      → All (λ c. Speaks metric c → priority_of c.materiality ≤ n) cs
      → All (λ c. ¬ (Speaks metric c)) cs
  silent-All [] n e h = tt
  silent-All (c ∷ cs) n e (h, hs) = (
    (λ speaks.
        let bound = h speaks in let pos = priority_of-pos c.materiality in absurd (omega arith)),
    silent-All cs n e hs,
  )

  -- Either no claim speaks of the metric and it has no entry, or its entry is made from a claim
  -- that does, and no claim that speaks of the metric has a higher priority.
  pub collect_metrics-best :
      (cs : List AiClaim)
      → let shown = Dict.lookup metric (collect_metrics [] cs) in
        ((shown ≡ none) × All (λ c. ¬ (Speaks metric c)) cs)
        ⊎ (MadeFrom cs shown
            × All (λ c. Speaks metric c → priority_of c.materiality ≤ shown_priority shown) cs)
  unfolding Dict.lookup
  collect_metrics-best cs =
      let (_, bounds) = collect_metrics-priority cs [] in
      elim (collect_metrics-origin cs []) [
        | inl same ↦ inl (same, silent-All cs _ (ap shown_priority same) bounds)
        | inr made ↦ inr (made, bounds)
      ]

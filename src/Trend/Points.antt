-- ===== src/Trend/Points.antt =====
-- Where the points of a trend come from, and how the series grow.
use financial_pdf_reader.Base.{◌≤◌}
use financial_pdf_reader.Base.{String, ◌≡◌, refl, sym, ◌∙◌, inl, inr}
use financial_pdf_reader.Base.{true, false, not, ◌||◌, Option, none, some}
use financial_pdf_reader.Base.{List, [], ◌∷◌, ◌++◌, arith}
use financial_pdf_reader.Base.{Bool-cases, is_some, or_default, length}
use financial_pdf_reader.Base.{is_empty, select, opt_list}
use financial_pdf_reader.Base.{All, eq_iff, nat_eq, string_eq, text_eq, contains}
use mathlib.Core.List.{append-nil, append_assoc}
use financial_pdf_reader.Base.Dict
use financial_pdf_reader.Base.Dict.{Dict}
use financial_pdf_reader.Base.Result.{ok, >>=-eq-ok}
use financial_pdf_reader.Trend.{
  tracked_kpis, TrendDict, StoredDashboard, TrendPoint, trend_point, Points, changed_points,
  metric_points, metric_items, extract_kpi_points, PeriodData, append_points, aggregate,
  empty_series,
}

-- A point is taken from the period of its document.
abbrev IsFrom : String → String → TrendPoint → Type 0
IsFrom doc period pt = (pt.document_id ≡ doc) × (pt.period ≡ period)

abbrev AllFrom : String → String → Points → Type 0
AllFrom doc period = All (λ (_, pt). IsFrom doc period pt)

module _ (doc period : String) where
  insert-AllFrom :
      (k : String) (pt : TrendPoint) (d : Points)
      → IsFrom doc period pt
      → AllFrom doc period d
      → AllFrom doc period (Dict.insert k pt d)
  unfolding Dict.insert
  insert-AllFrom k pt [] h hs = (h, tt)
  insert-AllFrom k pt ((j, q) ∷ d) h (g, gs) = ground (arith, insert-AllFrom k pt d h gs)

  changed_points-AllFrom :
      (items : List TrendDict) (d : Points)
      → AllFrom doc period d
      → AllFrom doc period (changed_points doc period items d)
  unfolding changed_points trend_point
  changed_points-AllFrom [] d h = h
  changed_points-AllFrom (item ∷ items) d h =
      let metric = or_default item.metric_id "" in
      let more = insert-AllFrom metric (trend_point doc period item) d (refl, refl) h in
      elim (Bool-cases (contains tracked_kpis metric)) [
        | inl e ↦
            rw e (
              changed_points-AllFrom items (Dict.insert metric (trend_point doc period item) d)
                more)
        | inr e ↦ rw e (changed_points-AllFrom items d h)
      ]

  metric_points-AllFrom :
      (ms : Dict String TrendDict) (d : Points)
      → AllFrom doc period d
      → AllFrom doc period (metric_points doc period ms d)
  unfolding metric_points trend_point
  metric_points-AllFrom [] d h = h
  metric_points-AllFrom ((metric, m) ∷ ms) d h =
      let more = insert-AllFrom metric (trend_point doc period m) d (refl, refl) h in
      elim (Bool-cases (not (contains tracked_kpis metric) || is_some (Dict.lookup metric d))) [
        | inl e ↦ rw e (metric_points-AllFrom ms d h)
        | inr e ↦
            rw e (metric_points-AllFrom ms (Dict.insert metric (trend_point doc period m) d) more)
      ]

  extract-AllFrom :
      (d : StoredDashboard) (points : Points)
      → extract_kpi_points doc period d ≡ ok points
      → AllFrom doc period points
  unfolding extract_kpi_points
  extract-AllFrom d points h =
      let changed = changed_points doc period (or_default d.what_changed []) [] in
      let (ms, _, e) =
        >>=-eq-ok (metric_items d.metrics) (λ items. ok (metric_points doc period items changed))
          points h in
      let same : metric_points doc period ms changed ≡ points = cc in
      rw (← same) (
        metric_points-AllFrom ms changed
          (changed_points-AllFrom (or_default d.what_changed []) [] tt))

lookup-AllFrom :
    (doc period k : String) (d : Points)
    → AllFrom doc period d
    → All (IsFrom doc period) (opt_list (Dict.lookup k d))
unfolding Dict.lookup
lookup-AllFrom doc period k [] h = tt
lookup-AllFrom doc period k ((j, pt) ∷ d) (h, hs) = ground (arith, lookup-AllFrom doc period k d hs)

-- The points of a series come from the given periods, at most one from each.
abbrev Sourced : List PeriodData → List TrendPoint → Type 0
Sourced [] pts = pts ≡ []
Sourced (p ∷ ps) pts =
    (own : List TrendPoint) × (rest : List TrendPoint) × (pts ≡ own ++ rest)
    × (length own ≤ 1)
    × All (IsFrom p.document_id p.period) own
    × Sourced ps rest

-- A series goes on with points of the given periods.
abbrev Continues : List PeriodData → String × List TrendPoint → String × List TrendPoint → Type 0
Continues ps (k, old) (j, new) =
    (k ≡ j) × ((more : List TrendPoint) × (new ≡ old ++ more) × Sourced ps more)

abbrev pub Series : Type 0
Series = Dict String (List TrendPoint)

abbrev pub AllContinue : List PeriodData → Series → Series → Type 0
AllContinue ps [] [] = Unit
AllContinue ps [] (_ ∷ _) = ⊥
AllContinue ps (_ ∷ _) [] = ⊥
AllContinue ps (s ∷ ss) (t ∷ ts) = Continues ps s t × AllContinue ps ss ts

AllContinue-refl : (series : Series) → AllContinue [] series series
AllContinue-refl [] = tt
AllContinue-refl ((k, pts) ∷ series) =
    ((refl, ([], sym (append-nil pts), refl)), AllContinue-refl series)

opt_list-length : {A : Type 0} (o : Option A) → length (opt_list o) ≤ 1
opt_list-length none = omega arith
opt_list-length (some a) = omega arith

AllContinue-append_points :
    (p : PeriodData) (ps : List PeriodData) (points : Points) (series out : Series)
    → AllFrom p.document_id p.period points
    → AllContinue ps (append_points points series) out
    → AllContinue (p ∷ ps) series out
unfolding append_points
AllContinue-append_points p ps points [] [] from c = tt
AllContinue-append_points p ps points [] (_ ∷ _) from c = c
AllContinue-append_points p ps points (_ ∷ _) [] from c = c
AllContinue-append_points p ps points ((k, old) ∷ series) ((j, new) ∷ out) from
      ((same, (more, e, s)), c) =
    let own = opt_list (Dict.lookup k points) in
    (
      (
        same,
        (
          own ++ more,
          e ∙ append_assoc old own more,
          (
            own,
            more,
            refl,
            opt_list-length (Dict.lookup k points),
            lookup-AllFrom p.document_id p.period k points from,
            s,
          ),
        ),
      ),
      AllContinue-append_points p ps points series out from c,
    )

pub aggregate-AllContinue :
    (ps : List PeriodData) (series out : Series)
    → aggregate ps series ≡ ok out
    → AllContinue ps series out
unfolding aggregate
aggregate-AllContinue [] series out h =
    let same : series ≡ out = cc in rw (← same) (AllContinue-refl series)
aggregate-AllContinue (p ∷ ps) series out h =
    let (points, extracted, rest) =
      >>=-eq-ok (extract_kpi_points p.document_id p.period p.dashboard)
        (λ points. aggregate ps (append_points points series)) out h in
    AllContinue-append_points p ps points series out
      (extract-AllFrom p.document_id p.period p.dashboard points extracted)
      (aggregate-AllContinue ps (append_points points series) out rest)

-- A KPI of the trend: it is one of those asked for, its series is not empty, and the points come
-- from the periods in their order, at most one from each.
abbrev pub IsSeries : List PeriodData → List String → String × List TrendPoint → Type 0
IsSeries ps kpis (k, pts) = (contains kpis k ≡ true) × (is_empty pts ≡ false) × Sourced ps pts

pub kept_series :
    (ps : List PeriodData) (all_kpis kpis : List String) (out : Series)
    → All (λ k. contains all_kpis k ≡ true) kpis
    → AllContinue ps (empty_series kpis) out
    → All (IsSeries ps all_kpis) (select (λ (_, pts). not (is_empty pts)) out)
kept_series ps all_kpis [] [] h c = tt
kept_series ps all_kpis [] (_ ∷ _) h c = elim c [ ]
kept_series ps all_kpis (k ∷ kpis) [] h c = elim c [ ]
kept_series ps all_kpis (k ∷ kpis) ((j, pts) ∷ out) (h, hs) ((same, (more, e, s)), c) =
    let rest = kept_series ps all_kpis kpis out hs c in
    let sourced : Sourced ps pts = rw e s in
    let listed : contains all_kpis j ≡ true = rw (← same) h in
    elim (Bool-cases (is_empty pts)) [
      | inl none_left ↦ rw none_left rest
      | inr some_left ↦ rw some_left ((listed, some_left, sourced), rest)
    ]

pub All-contains_of :
    (all_kpis kpis : List String)
    → ((k : String) → contains kpis k ≡ true → contains all_kpis k ≡ true)
    → All (λ k. contains all_kpis k ≡ true) kpis
All-contains_of all_kpis [] h = tt
All-contains_of all_kpis (k ∷ kpis) h = (
  h k (ground (arith, eq_iff k k)),
  All-contains_of all_kpis kpis (λ j m. h j (ground (arith, m))),
)

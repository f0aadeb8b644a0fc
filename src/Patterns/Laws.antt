-- ===== src/Patterns/Laws.antt =====
-- What services/reasoning_patterns/engine.py decides: `evaluate_pattern` against a description that
-- looks at each filter and each claim on its own.
use financial_pdf_reader.Base.{ℕ, suc, String, ◌≡◌, refl, Bool, true, false, not, ◌&&◌}
use financial_pdf_reader.Base.{List, [], ◌∷◌, ◌++◌, arith, if◌then◌else◌, select, concat_map}
use financial_pdf_reader.Base.{contains, ◌==◌, string_eq, all, any, is_empty, All}
use financial_pdf_reader.Base.{Bool-cases, inl, inr, sym, subst, All-map, ap, ◌∙◌}
use financial_pdf_reader.Patterns.{
  ClaimEntry, ClaimPropertyFilter, PatternDefinition, FilterLabel, TriggerStatus, triggered,
  not_triggered, insufficient_evidence, TriggerResult, matches, match_filters, unique_claims,
  found_result, trigger_result, evaluate_pattern,
}
use financial_pdf_reader.Patterns.Matching.{
  missing_labels, ids_of, is_evidence, IsDistinct, matched, match_filters-missing, matched-All,
  ids-matched, ids-unique_claims, unique_claims-IsDistinct, unique_claims-All, matched-cons,
}

-- Every filter has a claim that it lets pass.
abbrev pub is_supported : List ClaimPropertyFilter → List ClaimEntry → Bool
is_supported fs claims = all (λ f. any (matches f) claims) fs

abbrev pub expected_status : List ClaimPropertyFilter → List ClaimEntry → TriggerStatus
expected_status fs claims =
    if not (is_supported fs claims)
    then insufficient_evidence
    else if is_empty fs
    then not_triggered
    else triggered

abbrev pub is_triggered : TriggerStatus → Bool
is_triggered triggered = true
is_triggered _ = false

is_empty-missing_labels :
    (i : ℕ) (fs : List ClaimPropertyFilter) (claims : List ClaimEntry)
    → is_empty (missing_labels i fs claims) ≡ is_supported fs claims
is_empty-missing_labels i [] claims = refl
is_empty-missing_labels i (f ∷ fs) claims =
    ground (arith, is_empty-missing_labels (suc i) fs claims)

any-select-append :
    (p : ClaimEntry → Bool) (cs ds : List ClaimEntry)
    → any p cs ≡ true
    → is_empty (select p cs ++ ds) ≡ false
any-select-append p [] ds h = absurd (cc)
any-select-append p (c ∷ cs) ds h = ground (arith, any-select-append p cs ds)

is_empty-matched :
    (i : ℕ) (fs : List ClaimPropertyFilter) (claims : List ClaimEntry)
    → is_supported fs claims ≡ true
    → is_empty (matched i fs claims) ≡ is_empty fs
unfolding match_filters
is_empty-matched i [] claims h = refl
is_empty-matched i (f ∷ fs) claims h =
    ap is_empty (matched-cons i f fs claims)
    ∙ any-select-append (matches f) claims (matched (suc i) fs claims) (ground arith)

is_empty-unique_claims : (cs : List ClaimEntry) → is_empty (unique_claims [] cs) ≡ is_empty cs
unfolding unique_claims
is_empty-unique_claims [] = refl
is_empty-unique_claims (c ∷ cs) = refl

found_result-status :
    (p : PatternDefinition) (cs : List ClaimEntry)
    → (found_result p cs).status ≡ (if is_empty cs then not_triggered else triggered)
unfolding found_result
found_result-status p [] = refl
found_result-status p (c ∷ cs) = refl

found_result-sources :
    (p : PatternDefinition) (cs : List ClaimEntry) → (found_result p cs).source_claims ≡ cs
unfolding found_result
found_result-sources p [] = refl
found_result-sources p (c ∷ cs) = refl

found_result-missing :
    (p : PatternDefinition) (cs : List ClaimEntry) → (found_result p cs).missing_keys ≡ []
unfolding found_result
found_result-missing p [] = refl
found_result-missing p (c ∷ cs) = refl

trigger_result-status :
    (p : PatternDefinition) (r : (List (List ClaimEntry)) × (List FilterLabel))
    → (trigger_result p r).status ≡ (
        if not (is_empty r.1)
        then insufficient_evidence
        else if is_empty (concat_map (λ g. g) r.0)
        then not_triggered
        else triggered)
unfolding trigger_result
trigger_result-status p (groups, m ∷ ms) = refl
trigger_result-status p (groups, []) =
    found_result-status p (unique_claims [] (concat_map (λ g. g) groups))
    ∙ ap (λ b. if b then not_triggered else triggered)
        (is_empty-unique_claims (concat_map (λ g. g) groups))

trigger_result-missing :
    (p : PatternDefinition) (r : (List (List ClaimEntry)) × (List FilterLabel))
    → (trigger_result p r).missing_keys ≡ r.1
unfolding trigger_result
trigger_result-missing p (groups, m ∷ ms) = refl
trigger_result-missing p (groups, []) =
    found_result-missing p (unique_claims [] (concat_map (λ g. g) groups))

trigger_result-sources :
    (p : PatternDefinition) (r : (List (List ClaimEntry)) × (List FilterLabel))
    → (trigger_result p r).source_claims
      ≡ (if is_empty r.1 then unique_claims [] (concat_map (λ g. g) r.0) else [])
unfolding trigger_result
trigger_result-sources p (groups, m ∷ ms) = refl
trigger_result-sources p (groups, []) =
    found_result-sources p (unique_claims [] (concat_map (λ g. g) groups))

found_result-observation :
    (p : PatternDefinition) (cs : List ClaimEntry)
    → (found_result p cs).generated_observation
      ≡ (if is_triggered (found_result p cs).status then p.observation_template else "")
unfolding found_result
found_result-observation p [] = refl
found_result-observation p (c ∷ cs) = refl

trigger_result-observation :
    (p : PatternDefinition) (r : (List (List ClaimEntry)) × (List FilterLabel))
    → (trigger_result p r).generated_observation
      ≡ (if is_triggered (trigger_result p r).status then p.observation_template else "")
unfolding trigger_result
trigger_result-observation p (groups, m ∷ ms) = refl
trigger_result-observation p (groups, []) =
    found_result-observation p (unique_claims [] (concat_map (λ g. g) groups))

-- A pattern lacks evidence exactly if some filter has no matching claim, and else it is triggered
-- unless it has no filter at all; the missing keys are the labels of the filters without a matching
-- claim, in order, and the observation is the template exactly if the pattern is triggered.
pub evaluate_pattern-status :
    (p : PatternDefinition) (claims : List ClaimEntry)
    → ((evaluate_pattern p claims).status ≡ expected_status p.required_filters claims)
      × ((evaluate_pattern p claims).missing_keys ≡ missing_labels 0 p.required_filters claims)
      × ((evaluate_pattern p claims).generated_observation ≡ (
          if is_triggered (expected_status p.required_filters claims)
          then p.observation_template
          else ""))
unfolding evaluate_pattern
evaluate_pattern-status p claims =
    let r = match_filters 0 p.required_filters claims in
    let status : (trigger_result p r).status ≡ expected_status p.required_filters claims = ground (
      arith,
      trigger_result-status p r,
      match_filters-missing 0 p.required_filters claims,
      is_empty-missing_labels 0 p.required_filters claims,
      is_empty-matched 0 p.required_filters claims,
    ) in
    (
      status,
      trigger_result-missing p r ∙ match_filters-missing 0 p.required_filters claims,
      trigger_result-observation p r
          ∙ ap (λ s. if is_triggered s then p.observation_template else "") status,
    )

-- What the sources of a result are: evidence for a filter, each identifier once, and for a triggered
-- pattern all identifiers of claims that are evidence.
pub record IsSourced (p : PatternDefinition) (claims : List ClaimEntry) (r : TriggerResult)
    : Type 0 where
  pub evidence : All (λ c. is_evidence p.required_filters c ≡ true) r.source_claims
  pub distinct : IsDistinct (ids_of r.source_claims)
  pub complete :
      (k : String)
      → contains (ids_of r.source_claims) k ≡ (
          is_triggered r.status
          && any (λ c. is_evidence p.required_filters c && (k == c.claim_id)) claims)

evaluate_pattern-sources :
    (p : PatternDefinition) (claims : List ClaimEntry)
    → (evaluate_pattern p claims).source_claims ≡ (
        if is_supported p.required_filters claims
        then unique_claims [] (matched 0 p.required_filters claims)
        else [])
unfolding evaluate_pattern
evaluate_pattern-sources p claims = ground (
  arith,
  trigger_result-sources p (match_filters 0 p.required_filters claims),
  match_filters-missing 0 p.required_filters claims,
  is_empty-missing_labels 0 p.required_filters claims,
)

-- What holds of all claims holds of the sources of a result, and each source is evidence.
pub evaluate_pattern-All {κ} :
    (P : ClaimEntry → Type κ) (p : PatternDefinition) (claims : List ClaimEntry)
    → All P claims
    → All
        (λ c. P c × (is_evidence p.required_filters c ≡ true))
        (evaluate_pattern p claims).source_claims
evaluate_pattern-All P p claims h =
    let Q : ClaimEntry → Type κ = λ c. P c × (is_evidence p.required_filters c ≡ true) in
    subst (All Q) (sym (evaluate_pattern-sources p claims))
      (elim (Bool-cases (is_supported p.required_filters claims)) [
        | inl e ↦ rw e (
            unique_claims-All Q [] (matched 0 p.required_filters claims)
              (matched-All P 0 p.required_filters claims h))
        | inr e ↦ rw e tt
      ])

evaluate_pattern-IsDistinct :
    (p : PatternDefinition) (claims : List ClaimEntry)
    → IsDistinct (ids_of (evaluate_pattern p claims).source_claims)
evaluate_pattern-IsDistinct p claims =
    subst (λ cs. IsDistinct (ids_of cs)) (sym (evaluate_pattern-sources p claims))
      (elim (Bool-cases (is_supported p.required_filters claims)) [
        | inl e ↦ rw e (unique_claims-IsDistinct [] (matched 0 p.required_filters claims))
        | inr e ↦ rw e tt
      ])

All-Unit : (cs : List ClaimEntry) → All (λ _. Unit {0}) cs
All-Unit [] = tt
All-Unit (c ∷ cs) = (tt, All-Unit cs)

ids-empty :
    (k : String) (cs : List ClaimEntry) → is_empty cs ≡ true → contains (ids_of cs) k ≡ false
ids-empty k [] h = refl
ids-empty k (c ∷ cs) h = absurd (cc)

evaluate_pattern_complete :
    (p : PatternDefinition) (claims : List ClaimEntry) (k : String)
    → contains (ids_of (evaluate_pattern p claims).source_claims) k ≡ (
        is_triggered (evaluate_pattern p claims).status
        && any (λ c. is_evidence p.required_filters c && (k == c.claim_id)) claims)
evaluate_pattern_complete p claims k =
    let fs = p.required_filters in
    ap (λ cs. contains (ids_of cs) k) (evaluate_pattern-sources p claims)
    ∙ ground (
      arith,
      (evaluate_pattern-status p claims).0,
      ids-unique_claims k [] (matched 0 fs claims),
      ids-matched 0 k fs claims,
      is_empty-matched 0 fs claims,
      ids-empty k (matched 0 fs claims),
    )

-- The sources of a pattern's result are claims that a filter of the pattern lets pass, no identifier
-- stands twice among them, and an identifier stands among them exactly if the pattern is triggered
-- and a claim with that identifier passes some filter.
pub evaluate_pattern-IsSourced :
    (p : PatternDefinition) (claims : List ClaimEntry)
    → IsSourced p claims (evaluate_pattern p claims)
evaluate_pattern-IsSourced p claims = record {
  evidence =
      All-map (λ c (h, e). e) (evaluate_pattern p claims).source_claims
        (evaluate_pattern-All (λ _. Unit {0}) p claims (All-Unit claims));
  distinct = evaluate_pattern-IsDistinct p claims;
  complete = evaluate_pattern_complete p claims;
}

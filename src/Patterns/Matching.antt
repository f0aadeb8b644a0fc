-- ===== src/Patterns/Matching.antt =====
-- Lemmas on `match_filters` and `unique_claims` of services/reasoning_patterns/engine.py.
use financial_pdf_reader.Base.{ℕ, suc, String, ◌≡◌, refl, Bool, true, false, not, ◌&&◌, ◌||◌}
use financial_pdf_reader.Base.{List, [], ◌∷◌, ◌++◌, arith, if◌then◌else◌, select, concat_map}
use financial_pdf_reader.Base.{contains, ◌==◌, eq_iff, string_eq, map, any, is_empty, All}
use financial_pdf_reader.Base.{All-append, Bool-cases, inl, inr, sym, subst, All-map, ap}
use financial_pdf_reader.Patterns.{
  ClaimEntry, ClaimPropertyFilter, FilterLabel, matches, find_matching_claims, filter_label,
  add_matched, match_filters, unique_claims,
}

-- The labels of the filters that no claim matches, the first of them with number `i`.
abbrev pub missing_labels : ℕ → List ClaimPropertyFilter → List ClaimEntry → List FilterLabel
missing_labels i [] claims = []
missing_labels i (f ∷ fs) claims =
    let rest = missing_labels (suc i) fs claims in
    if any (matches f) claims then rest else filter_label i f ∷ rest

abbrev pub ids_of : List ClaimEntry → List String
ids_of cs = map (λ c. c.claim_id) cs

-- Some filter lets the claim pass.
abbrev pub is_evidence : List ClaimPropertyFilter → ClaimEntry → Bool
is_evidence fs c = any (λ f. matches f c) fs

abbrev pub IsDistinct : List String → Type 0
IsDistinct [] = Unit
IsDistinct (k ∷ ks) = (contains ks k ≡ false) × IsDistinct ks

-- All the claims that the filters matched, in the order of the loop.
abbrev pub matched : ℕ → List ClaimPropertyFilter → List ClaimEntry → List ClaimEntry
matched i fs claims = concat_map (λ g. g) (match_filters i fs claims).0

is_empty-select :
    (p : ClaimEntry → Bool) (cs : List ClaimEntry) → is_empty (select p cs) ≡ not (any p cs)
is_empty-select p [] = refl
is_empty-select p (c ∷ cs) = ground (arith, is_empty-select p cs)

add_matched-missing :
    (ms : List ClaimEntry) (l : FilterLabel) (r : (List (List ClaimEntry)) × (List FilterLabel))
    → (add_matched ms l r).1 ≡ (if is_empty ms then l ∷ r.1 else r.1)
unfolding add_matched
add_matched-missing [] l (groups, missing) = refl
add_matched-missing (c ∷ cs) l (groups, missing) = refl

add_matched-groups :
    (ms : List ClaimEntry) (l : FilterLabel) (r : (List (List ClaimEntry)) × (List FilterLabel))
    → concat_map (λ g. g) (add_matched ms l r).0 ≡ ms ++ concat_map (λ g. g) r.0
unfolding add_matched
add_matched-groups [] l (groups, missing) = refl
add_matched-groups (c ∷ cs) l (groups, missing) = refl

pub match_filters-missing :
    (i : ℕ) (fs : List ClaimPropertyFilter) (claims : List ClaimEntry)
    → (match_filters i fs claims).1 ≡ missing_labels i fs claims
unfolding match_filters find_matching_claims
match_filters-missing i [] claims = refl
match_filters-missing i (f ∷ fs) claims = ground (
  arith,
  add_matched-missing (select (matches f) claims) (filter_label i f)
      (match_filters (suc i) fs claims),
  is_empty-select (matches f) claims,
  match_filters-missing (suc i) fs claims,
)

pub matched-cons :
    (i : ℕ) (f : ClaimPropertyFilter) (fs : List ClaimPropertyFilter) (claims : List ClaimEntry)
    → matched i (f ∷ fs) claims ≡ select (matches f) claims ++ matched (suc i) fs claims
unfolding match_filters find_matching_claims
matched-cons i f fs claims =
    add_matched-groups (select (matches f) claims) (filter_label i f)
      (match_filters (suc i) fs claims)

module _ {κ} (P : ClaimEntry → Type κ) where
  All-select-matches :
      (f : ClaimPropertyFilter) (fs : List ClaimPropertyFilter) (cs : List ClaimEntry)
      → All P cs
      → All (λ c. P c × (is_evidence (f ∷ fs) c ≡ true)) (select (matches f) cs)
  All-select-matches f fs [] h = tt
  All-select-matches f fs (c ∷ cs) (p, h) = elim (Bool-cases (matches f c)) [
    | inl e ↦ rw e ((p, rw e refl), All-select-matches f fs cs h)
    | inr e ↦ rw e (All-select-matches f fs cs h)
  ]

  pub matched-All :
      (i : ℕ) (fs : List ClaimPropertyFilter) (claims : List ClaimEntry)
      → All P claims
      → All (λ c. P c × (is_evidence fs c ≡ true)) (matched i fs claims)
  unfolding match_filters
  matched-All i [] claims h = tt
  matched-All i (f ∷ fs) claims h =
      subst (All (λ c. P c × (is_evidence (f ∷ fs) c ≡ true))) (sym (matched-cons i f fs claims)) (
        All-append (λ c. P c × (is_evidence (f ∷ fs) c ≡ true)) (select (matches f) claims)
          (matched (suc i) fs claims) (All-select-matches f fs claims h)
          (All-map (λ c (p, e). (p, ground (arith, e))) (matched (suc i) fs claims)
            (matched-All (suc i) fs claims h)))

contains-ids-append :
    (k : String) (xs ys : List ClaimEntry)
    → contains (ids_of (xs ++ ys)) k ≡ (contains (ids_of xs) k || contains (ids_of ys) k)
contains-ids-append k [] ys = refl
contains-ids-append k (x ∷ xs) ys = ground (arith, contains-ids-append k xs ys)

ids-select :
    (p : ClaimEntry → Bool) (k : String) (cs : List ClaimEntry)
    → contains (ids_of (select p cs)) k ≡ any (λ c. p c && (k == c.claim_id)) cs
ids-select p k [] = refl
ids-select p k (c ∷ cs) = ground (arith, ids-select p k cs)

any-or :
    (p q r : ClaimEntry → Bool) (cs : List ClaimEntry)
    → any (λ c. (p c || q c) && r c) cs ≡ (any (λ c. p c && r c) cs || any (λ c. q c && r c) cs)
any-or p q r [] = refl
any-or p q r (c ∷ cs) = ground (arith, any-or p q r cs)

any-false : (r : ClaimEntry → Bool) (cs : List ClaimEntry) → any (λ c. false && r c) cs ≡ false
any-false r [] = refl
any-false r (c ∷ cs) = any-false r cs

-- An identifier is among the matched claims exactly if it is that of some evidence.
pub ids-matched :
    (i : ℕ) (k : String) (fs : List ClaimPropertyFilter) (claims : List ClaimEntry)
    → contains (ids_of (matched i fs claims)) k
      ≡ any (λ c. is_evidence fs c && (k == c.claim_id)) claims
unfolding match_filters
ids-matched i k [] claims = sym (any-false (λ c. k == c.claim_id) claims)
ids-matched i k (f ∷ fs) claims = ground (
  arith,
  ap (λ cs. contains (ids_of cs) k) (matched-cons i f fs claims),
  contains-ids-append k (select (matches f) claims) (matched (suc i) fs claims),
  ids-select (matches f) k claims,
  ids-matched (suc i) k fs claims,
  any-or (matches f) (is_evidence fs) (λ c. k == c.claim_id) claims,
)

-- A claim that is kept is new, and every identifier is kept or was seen before.
pub ids-unique_claims :
    (k : String) (seen : List String) (cs : List ClaimEntry)
    → contains (ids_of (unique_claims seen cs)) k
      ≡ (contains (ids_of cs) k && not (contains seen k))
unfolding unique_claims
ids-unique_claims k seen [] = refl
ids-unique_claims k seen (c ∷ cs) = ground (
  arith,
  eq_iff k c.claim_id,
  ids-unique_claims k seen cs,
  ids-unique_claims k (c.claim_id ∷ seen) cs,
)

pub unique_claims-IsDistinct :
    (seen : List String) (cs : List ClaimEntry) → IsDistinct (ids_of (unique_claims seen cs))
unfolding unique_claims
unique_claims-IsDistinct seen [] = tt
unique_claims-IsDistinct seen (c ∷ cs) = elim (Bool-cases (contains seen c.claim_id)) [
  | inl e ↦ rw e (unique_claims-IsDistinct seen cs)
  | inr e ↦ rw e (
    ground
        (arith, ids-unique_claims c.claim_id (c.claim_id ∷ seen) cs, eq_iff c.claim_id c.claim_id),
    unique_claims-IsDistinct (c.claim_id ∷ seen) cs,
  )
]

pub unique_claims-All {κ} :
    (P : ClaimEntry → Type κ) (seen : List String) (cs : List ClaimEntry)
    → All P cs
    → All P (unique_claims seen cs)
unfolding unique_claims
unique_claims-All P seen [] h = tt
unique_claims-All P seen (c ∷ cs) (p, h) = elim (Bool-cases (contains seen c.claim_id)) [
  | inl e ↦ rw e (unique_claims-All P seen cs h)
  | inr e ↦ rw e (p, unique_claims-All P (c.claim_id ∷ seen) cs h)
]

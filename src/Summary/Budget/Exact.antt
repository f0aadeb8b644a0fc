-- ===== src/Summary/Budget/Exact.antt =====
-- What `_allocate_section_budget` promises: no section gets more than its quota or its chunks, and
-- together the sections get the whole budget, or all that they desire if that is less.
use financial_pdf_reader.Base.{ℕ, ◌-◌, ◌≤◌, ◌<◌, min}
use financial_pdf_reader.Base.{String, ◌≡◌, refl, sym, ap, ◌∙◌, inl, inr}
use financial_pdf_reader.Base.{Bool, true, false}
use financial_pdf_reader.Base.{List, [], ◌∷◌, arith, leb}
use financial_pdf_reader.Base.{Bool-cases, is_some, or_default, length}
use financial_pdf_reader.Base.{eq_iff, nat_eq, string_eq, text_eq, contains}
use financial_pdf_reader.Base.Dict
use financial_pdf_reader.Base.Dict.{Dict}
use financial_pdf_reader.Base.Sort.{sorted, count_if-sorted, All-sorted}
use financial_pdf_reader.Base.Sort.{insert_sorted}
use financial_pdf_reader.Summary.Budget.{
  quota_of, desired_counts, floor_shares, by_desired, scaled, allocate_section_budget,
}
use financial_pdf_reader.Summary.Budget.Allocation.{
  has_room, Distinct, AllHave, total-top_up, top_up-bounds, keys-top_up,
}
use financial_pdf_reader.Summary.Budget.Shares.{
  count_of-floor_shares, keys-floor_shares, remaining-le-room,
}
use native.Mathlib.Nat.{div-le_of_le-mul, mul-le-mul_left, le_of_lt, le_of_eq, le_trans}

AllHave-keys :
    (ds d : Dict String ℕ)
    → ((s : String) → contains (Dict.keys ds) s ≡ true → is_some (Dict.lookup s d) ≡ true)
    → AllHave d (Dict.keys ds)
AllHave-keys [] d h = tt
AllHave-keys ((s, n) ∷ ds) d h =
    (h s (ground (arith, eq_iff s s)), AllHave-keys ds d (λ r m. h r (ground (arith, m))))

module _ (before : String → String → Bool) where
  contains-insert_sorted :
      (x y : String) (xs : List String)
      → contains (insert_sorted before x xs) y ≡ contains (x ∷ xs) y
  unfolding insert_sorted
  contains-insert_sorted x y [] = refl
  contains-insert_sorted x y (z ∷ zs) = ground (arith, contains-insert_sorted x y zs)

  insert_sorted-Distinct :
      (x : String) (xs : List String)
      → contains xs x ≡ false
      → Distinct xs
      → Distinct (insert_sorted before x xs)
  unfolding insert_sorted
  insert_sorted-Distinct x [] f u = (refl, tt)
  insert_sorted-Distinct x (y ∷ ys) f (g, u) =
      ground
        (arith, eq_iff x y, eq_iff y x, contains-insert_sorted x y ys, insert_sorted-Distinct x ys)

  contains-sorted : (xs : List String) (y : String) → contains (sorted before xs) y ≡ contains xs y
  unfolding sorted
  contains-sorted [] y = refl
  contains-sorted (x ∷ xs) y =
      ground (arith, contains-insert_sorted x y (sorted before xs), contains-sorted xs y)

  sorted-Distinct : (xs : List String) → Distinct xs → Distinct (sorted before xs)
  unfolding sorted
  sorted-Distinct [] u = tt
  sorted-Distinct (x ∷ xs) (f, u) =
      insert_sorted-Distinct x (sorted before xs) (contains-sorted xs x ∙ f) (sorted-Distinct xs u)

-- The first shares have an entry for each section of the loop.
AllHave-sorted :
    (budget : ℕ) (ds : Dict String ℕ)
    → AllHave (floor_shares budget (Dict.total ds) ds) (sorted (by_desired ds) (Dict.keys ds))
AllHave-sorted budget ds =
    let shares = floor_shares budget (Dict.total ds) ds in
    let kept = keys-floor_shares budget (Dict.total ds) ds in
    All-sorted (by_desired ds) (λ s. is_some (Dict.lookup s shares) ≡ true) (Dict.keys ds)
      (AllHave-keys ds shares
        (λ s m. sym (Dict.contains-keys s shares) ∙ (ap (λ ks. contains ks s) kept ∙ m)))

-- Scaled down, the shares add up to the whole budget.
total-scaled :
    (budget : ℕ) (ds : Dict String ℕ)
    → Distinct (Dict.keys ds)
    → budget < Dict.total ds
    → Dict.total (scaled budget ds) ≡ budget
unfolding scaled
total-scaled budget ds u h =
    let before = by_desired ds in
    let shares = floor_shares budget (Dict.total ds) ds in
    let (below, fits) = remaining-le-room budget ds u h in
    let given =
      total-top_up (sorted before (Dict.keys ds)) (budget - Dict.total shares) ds shares
        (sorted-Distinct before (Dict.keys ds) u) (AllHave-sorted budget ds)
        (rw (count_if-sorted before (has_room ds shares) (Dict.keys ds)) fits) in
    omega (arith, given)

keys-scaled : (budget : ℕ) (ds : Dict String ℕ) → Dict.keys (scaled budget ds) ≡ Dict.keys ds
unfolding scaled
keys-scaled budget ds =
    let t = Dict.total ds in
    let shares = floor_shares budget t ds in
    keys-top_up (sorted (by_desired ds) (Dict.keys ds)) (budget - Dict.total shares) ds shares
      (AllHave-sorted budget ds)
    ∙ keys-floor_shares budget t ds

scaled-le :
    (budget : ℕ) (ds : Dict String ℕ) (s : String)
    → budget < Dict.total ds
    → Dict.count_of s (scaled budget ds) ≤ Dict.count_of s ds
unfolding scaled
scaled-le budget ds s h =
    let t = Dict.total ds in
    let shares = floor_shares budget t ds in
    let d = Dict.count_of s ds in
    let small : Dict.count_of s shares ≤ d =
      rw (count_of-floor_shares budget t s ds)
        (div-le_of_le-mul t (omega (arith, mul-le-mul_left d (le_of_lt h)))) in
    (top_up-bounds (sorted (by_desired ds) (Dict.keys ds)) (budget - Dict.total shares) ds shares s
      small).0

module _ {ℓ} {A : Type ℓ} where
  keys-desired_counts : (d : Dict String (List A)) → Dict.keys (desired_counts d) ≡ Dict.keys d
  unfolding desired_counts
  keys-desired_counts [] = refl
  keys-desired_counts ((s, cs) ∷ d) = ap (λ ks. s ∷ ks) (keys-desired_counts d)

  count_of-desired_counts :
      (s : String) (d : Dict String (List A))
      → Dict.count_of s (desired_counts d)
        ≡ min (length (or_default (Dict.lookup s d) [])) (quota_of s)
  unfolding desired_counts Dict.lookup
  count_of-desired_counts s [] = omega arith
  count_of-desired_counts s ((r, cs) ∷ d) = ground (arith, eq_iff s r, count_of-desired_counts s d)

  -- For distinct names of sections, the allocation uses exactly the budget, or all that the sections desire where that is less,
  -- and no section gets more than its quota or more than it has chunks.
  pub allocate_section_budget-exact :
      (by_section : Dict String (List A)) (budget : ℕ)
      → Distinct (Dict.keys by_section)
      → let allocation = allocate_section_budget by_section budget in
        (Dict.total allocation ≡ min budget (Dict.total (desired_counts by_section)))
        × ((s : String)
            → Dict.count_of s allocation
              ≤ min (length (or_default (Dict.lookup s by_section) [])) (quota_of s))
  unfolding allocate_section_budget
  allocate_section_budget-exact by_section budget u =
      let ds = desired_counts by_section in
      let v : Distinct (Dict.keys ds) = rw (keys-desired_counts by_section) u in
      let upper = count_of-desired_counts in
      elim (Bool-cases (leb (Dict.total ds) budget)) [
        | inl fits ↦ rw fits (ground arith, λ s. le_of_eq (upper s by_section))
        | inr scarce ↦
            let h : budget < Dict.total ds = ground arith in
            rw scarce (
              omega (arith, total-scaled budget ds v h),
              λ s. le_trans (scaled-le budget ds s h) (le_of_eq (upper s by_section)),
            )
      ]

  pub keys-allocate_section_budget :
      (by_section : Dict String (List A)) (budget : ℕ)
      → Dict.keys (allocate_section_budget by_section budget) ≡ Dict.keys by_section
  unfolding allocate_section_budget
  keys-allocate_section_budget by_section budget =
      let ds = desired_counts by_section in
      ground (arith, keys-scaled budget ds, keys-desired_counts by_section)

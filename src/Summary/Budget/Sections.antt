-- ===== src/Summary/Budget/Sections.antt =====
-- The section-aware retrieval, section by section.
use financial_pdf_reader.Base.{
  ℕ, zero, suc, ◌≤◌, min, String, ◌≡◌, refl, sym, ap, ◌∙◌, subst, inl, inr,
}
use financial_pdf_reader.Base.{
  Bool, true, false, ◌||◌, some, List, [], ◌∷◌, ◌++◌, if◌then◌else◌, arith,
}
use financial_pdf_reader.Base.{
  Bool-cases, or_default, is_some, length, take, sum_of, select, any, All, All-map, All-select,
}
use financial_pdf_reader.Base.{
  count_if, count_if-append, contains, ◌==◌, eq_iff, string_eq, length-take-le,
}
use mathlib.Core.List.{append_assoc, append-nil}
use financial_pdf_reader.Base.Dict
use financial_pdf_reader.Base.Dict.{Dict}
use financial_pdf_reader.Base.Sort.{IsSorted, count_if-sorted}
use financial_pdf_reader.Documents.{PdfChunk}
use financial_pdf_reader.Summary.Budget.{
  quota_of, desired_counts, allocate_section_budget, group_append, section_of, group_chunks,
  select_chunks, page_order, retrieve_chunks_section_aware,
}
use financial_pdf_reader.Summary.Budget.Allocation.{Distinct}
use financial_pdf_reader.Summary.Budget.Exact.{allocate_section_budget-exact}
use financial_pdf_reader.Summary.Budget.Retrieval.{
  group_chunks-Distinct, found_self, retrieve_chunks-exact,
}

-- The chunk is filed under the section.
abbrev pub is_in_section : String → PdfChunk → Bool
is_in_section s c = s == section_of c

-- The chunks of a section in the dict.
abbrev group_of : String → Dict String (List PdfChunk) → List PdfChunk
group_of s d = or_default (Dict.lookup s d) []

group_of-group_append :
    (s : String) (c : PdfChunk) (d : Dict String (List PdfChunk))
    → group_of s (group_append (section_of c) c d)
      ≡ (if is_in_section s c then group_of s d ++ c ∷ [] else group_of s d)
unfolding group_append
group_of-group_append s c d =
    let new = group_of (section_of c) d ++ c ∷ [] in
    ground (arith, Dict.lookup-insert s (section_of c) new d, eq_iff s (section_of c))

group_of-group_chunks :
    (s : String) (cs : List PdfChunk) (d : Dict String (List PdfChunk))
    → group_of s (group_chunks d cs) ≡ group_of s d ++ select (is_in_section s) cs
unfolding group_chunks
group_of-group_chunks s [] d = sym (append-nil (group_of s d))
group_of-group_chunks s (c ∷ cs) d = ground (
  arith,
  group_of-group_chunks s cs (group_append (section_of c) c d),
  group_of-group_append s c d,
  append_assoc (group_of s d) (c ∷ []) (select (is_in_section s) cs),
)

is_key-group_chunks :
    (s : String) (cs : List PdfChunk) (d : Dict String (List PdfChunk))
    → is_some (Dict.lookup s (group_chunks d cs))
      ≡ (is_some (Dict.lookup s d) || any (is_in_section s) cs)
unfolding group_chunks group_append
is_key-group_chunks s [] d = ground arith
is_key-group_chunks s (c ∷ cs) d =
    let new = group_of (section_of c) d ++ c ∷ [] in
    ground (
      arith,
      is_key-group_chunks s cs (group_append (section_of c) c d),
      Dict.lookup-insert s (section_of c) new d,
    )

length-select : (p : PdfChunk → Bool) (cs : List PdfChunk) → length (select p cs) ≡ count_if p cs
length-select p [] = refl
length-select p (c ∷ cs) = ground (arith, length-select p cs)

count_if-le : (p : PdfChunk → Bool) (cs : List PdfChunk) → count_if p cs ≤ length cs
count_if-le p [] = omega arith
count_if-le p (c ∷ cs) = ground (arith, count_if-le p cs)

count_if-other :
    (s r : String) (n : ℕ) (cs : List PdfChunk)
    → (s == r) ≡ false
    → All (λ c. is_in_section r c ≡ true) cs
    → count_if (is_in_section s) (take n cs) ≡ 0
count_if-other s r zero cs h a = refl
count_if-other s r (suc n) [] h a = refl
count_if-other s r (suc n) (c ∷ cs) h (a, rest) = ground (
  arith,
  count_if-other s r n cs h rest,
  eq_iff s r,
  eq_iff s (section_of c),
  eq_iff r (section_of c),
)

-- Each entry holds chunks of its own section.
abbrev IsFiled : Dict String (List PdfChunk) → Type 0
IsFiled = All (λ (s, cs). All (λ c. is_in_section s c ≡ true) cs)

module _ (s : String) (a : Dict String ℕ) where
  count_if-select_other :
      (d : Dict String (List PdfChunk))
      → contains (Dict.keys d) s ≡ false
      → IsFiled d
      → count_if (is_in_section s) (select_chunks a d) ≡ 0
  unfolding select_chunks
  count_if-select_other [] h f = refl
  count_if-select_other ((r, cs) ∷ d) h (f, fs) =
      let n = Dict.count_of r a in
      omega (
        arith,
        count_if-append (is_in_section s) (take n cs) (select_chunks a d),
        count_if-other s r n cs (ground arith) f,
        count_if-select_other d (ground arith) fs,
      )

  count_if-select_chunks :
      (d : Dict String (List PdfChunk))
      → Distinct (Dict.keys d)
      → IsFiled d
      → count_if (is_in_section s) (select_chunks a d) ≤ Dict.count_of s a
  unfolding select_chunks
  count_if-select_chunks [] u f = omega arith
  count_if-select_chunks ((r, cs) ∷ d) (fresh, u) (f, fs) =
      let n = Dict.count_of r a in
      let both = count_if-append (is_in_section s) (take n cs) (select_chunks a d) in
      elim (Bool-cases (s == r)) [
        | inl e ↦
            let same : s ≡ r = (eq_iff s r).0 e in
            omega (
              arith,
              both,
              count_if-le (is_in_section s) (take n cs),
              length-take-le n cs,
              count_if-select_other d
                  (subst (λ k. contains (Dict.keys d) k ≡ false) (sym same) fresh) fs,
              ap (λ k. Dict.count_of k a) same,
            )
        | inr e ↦ omega (arith, both, count_if-other s r n cs e f, count_if-select_chunks d u fs)
      ]

module _ (cs : List PdfChunk) where
  abbrev by_section : Dict String (List PdfChunk)
  by_section = group_chunks [] cs

  group_of-select : (s : String) → group_of s by_section ≡ select (is_in_section s) cs
  unfolding Dict.lookup
  group_of-select s = group_of-group_chunks s cs []

  found : All (λ (s, ds). Dict.lookup s by_section ≡ some ds) by_section
  found = found_self by_section (group_chunks-Distinct [] cs tt)

  by_section-IsFiled :
      (part : Dict String (List PdfChunk))
      → All (λ (s, ds). Dict.lookup s by_section ≡ some ds) part
      → IsFiled part
  by_section-IsFiled [] h = tt
  by_section-IsFiled ((s, ds) ∷ part) (h, hs) =
      let same : select (is_in_section s) cs ≡ ds =
        sym (group_of-select s) ∙ ap (λ o. or_default o []) h in
      (
        subst (All (λ c. is_in_section s c ≡ true)) same (
            All-map (λ c (m, e). e) (select (is_in_section s) cs)
              (All-select (is_in_section s) cs)),
        by_section-IsFiled part hs,
      )

  -- What the quotas allow.
  abbrev pub allowed : String → ℕ
  allowed s = min (count_if (is_in_section s) cs) (quota_of s)

  total-desired_counts :
      (part : Dict String (List PdfChunk))
      → All (λ (s, ds). Dict.lookup s by_section ≡ some ds) part
      → Dict.total (desired_counts part) ≡ sum_of allowed (Dict.keys part)
  unfolding desired_counts
  total-desired_counts [] h = refl
  total-desired_counts ((s, ds) ∷ part) (h, hs) =
      let same : select (is_in_section s) cs ≡ ds =
        sym (group_of-select s) ∙ ap (λ o. or_default o []) h in
      let many : length ds ≡ count_if (is_in_section s) cs =
        ap length (sym same) ∙ length-select (is_in_section s) cs in
      omega (arith, ap (λ n. min n (quota_of s)) many, total-desired_counts part hs)

-- What is retrieved from chunks in page order: `sections` are those that have a chunk, each once; as
-- many chunks as the budget allows, or as all sections' allowances are together, if that is less; of
-- no section more than its allowance; and in page order.
pub record IsRetrieval (cs : List PdfChunk) (budget : ℕ) (sections : List String)
    (chosen : List PdfChunk) : Type 0 where
  pub distinct : Distinct sections
  pub complete : (s : String) → contains sections s ≡ any (is_in_section s) cs
  pub exact : length chosen ≡ min budget (sum_of (allowed cs) sections)
  pub within : (s : String) → count_if (is_in_section s) chosen ≤ allowed cs s
  pub ordered : IsSorted page_order chosen

retrieved_within :
    (cs : List PdfChunk) (budget : ℕ) (s : String)
    → count_if (is_in_section s) (retrieve_chunks_section_aware cs budget) ≤ allowed cs s
unfolding retrieve_chunks_section_aware
retrieved_within [] budget s = omega arith
retrieved_within (c ∷ cs) budget s =
    let d = by_section (c ∷ cs) in
    let a = allocate_section_budget d budget in
    let u = group_chunks-Distinct [] (c ∷ cs) tt in
    let many : length (group_of s d) ≡ count_if (is_in_section s) (c ∷ cs) =
      ap length (group_of-select (c ∷ cs) s) ∙ length-select (is_in_section s) (c ∷ cs) in
    omega (
      arith,
      count_if-sorted page_order (is_in_section s) (select_chunks a d),
      count_if-select_chunks s a d u (by_section-IsFiled (c ∷ cs) d (found (c ∷ cs))),
      (allocate_section_budget-exact d budget u).1 s,
      ap (λ n. min n (quota_of s)) many,
    )

-- With the sections that have a chunk, each of them once, the retrieval returns exactly as many chunks
-- as the budget, or as the sum over the sections of the smaller of quota and number of chunks, if that
-- is less. No section gets more than that, and the chunks stand in the order of their pages.
pub retrieve_chunks-IsRetrieval :
    (cs : List PdfChunk) (budget : ℕ)
    → (sections : List String) × IsRetrieval cs budget sections
        (retrieve_chunks_section_aware cs budget)
unfolding Dict.lookup
retrieve_chunks-IsRetrieval cs budget =
    let d = by_section cs in
    let (exact, ordered) = retrieve_chunks-exact cs budget in
    (
      Dict.keys d,
      record {
        distinct = group_chunks-Distinct [] cs tt;
        complete = λ s. Dict.contains-keys s d ∙ is_key-group_chunks s cs [];
        exact = exact ∙ ap (min budget) (total-desired_counts cs d (found cs));
        within = retrieved_within cs budget;
        ordered = ordered;
      },
    )

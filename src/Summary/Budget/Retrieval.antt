-- ===== src/Summary/Budget/Retrieval.antt =====
-- What the section-aware retrieval hands to the prompt.
use financial_pdf_reader.Base.{ℕ, zero, suc, ◌≤◌, min}
use financial_pdf_reader.Base.{String, ◌≡◌, refl, sym, ap, ◌∙◌, inl, inr}
use financial_pdf_reader.Base.{true, false, ◌||◌, some}
use financial_pdf_reader.Base.{List, [], ◌∷◌, ◌++◌, arith}
use financial_pdf_reader.Base.{Bool-cases, or_default, length, take}
use financial_pdf_reader.Base.{sum_of}
use financial_pdf_reader.Base.{length-append}
use financial_pdf_reader.Base.{All, All-append, ◌==◌, eq_iff, nat_eq, string_eq, text_eq, contains}
use financial_pdf_reader.Base.Dict
use financial_pdf_reader.Base.Dict.{Dict}
use financial_pdf_reader.Base.Sort.{length-sorted, All-sorted}
use financial_pdf_reader.Base.Sort.{IsSorted, sorted-IsSorted}
use financial_pdf_reader.Documents.{PdfChunk}
use financial_pdf_reader.Summary.Budget.{
  quota_of, desired_counts, allocate_section_budget, group_append, section_of, group_chunks,
  select_chunks, page_order, retrieve_chunks_section_aware,
}
use financial_pdf_reader.Summary.Budget.Allocation.{Distinct}
use financial_pdf_reader.Summary.Budget.Shares.{Agrees, Agrees-self}
use financial_pdf_reader.Summary.Budget.Exact.{
  allocate_section_budget-exact, keys-allocate_section_budget,
}

contains-keys-insert {ℓ} :
    {V : Type ℓ} (s t : String) (v : V) (d : Dict String V)
    → contains (Dict.keys (Dict.insert t v d)) s ≡ (s == t || contains (Dict.keys d) s)
unfolding Dict.insert
contains-keys-insert s t v [] = refl
contains-keys-insert s t v ((r, w) ∷ d) =
    ground (arith, eq_iff t r, eq_iff s t, eq_iff s r, contains-keys-insert s t v d)

insert-Distinct {ℓ} :
    {V : Type ℓ} (t : String) (v : V) (d : Dict String V)
    → Distinct (Dict.keys d)
    → Distinct (Dict.keys (Dict.insert t v d))
unfolding Dict.insert
insert-Distinct t v [] u = (refl, tt)
insert-Distinct t v ((r, w) ∷ d) (f, u) =
    ground (arith, eq_iff t r, eq_iff r t, contains-keys-insert r t v d, insert-Distinct t v d u)

pub group_chunks-Distinct :
    (d : Dict String (List PdfChunk)) (cs : List PdfChunk)
    → Distinct (Dict.keys d)
    → Distinct (Dict.keys (group_chunks d cs))
unfolding group_chunks group_append
group_chunks-Distinct d [] u = u
group_chunks-Distinct d (c ∷ cs) u =
    group_chunks-Distinct (group_append (section_of c) c d) cs (
      insert-Distinct (section_of c) (or_default (Dict.lookup (section_of c) d) [] ++ (c ∷ [])) d u)

module _ {κ} (P : PdfChunk → Type κ) where
  abbrev AllGrouped : Dict String (List PdfChunk) → Type κ
  AllGrouped = All (λ (_, cs). All P cs)

  lookup-AllGrouped :
      (s : String) (d : Dict String (List PdfChunk))
      → AllGrouped d
      → All P (or_default (Dict.lookup s d) [])
  unfolding Dict.lookup
  lookup-AllGrouped s [] h = tt
  lookup-AllGrouped s ((r, cs) ∷ d) (h, hs) = elim (Bool-cases (s == r)) [
    | inl e ↦ rw e h
    | inr e ↦ rw e (lookup-AllGrouped s d hs)
  ]

  insert-AllGrouped :
      (s : String) (cs : List PdfChunk) (d : Dict String (List PdfChunk))
      → All P cs
      → AllGrouped d
      → AllGrouped (Dict.insert s cs d)
  unfolding Dict.insert
  insert-AllGrouped s cs [] p h = (p, tt)
  insert-AllGrouped s cs ((r, w) ∷ d) p (h, hs) = elim (Bool-cases (s == r)) [
    | inl e ↦ rw e (p, hs)
    | inr e ↦ rw e (h, insert-AllGrouped s cs d p hs)
  ]

  group_chunks-All :
      (d : Dict String (List PdfChunk)) (cs : List PdfChunk)
      → AllGrouped d
      → All P cs
      → AllGrouped (group_chunks d cs)
  unfolding group_chunks group_append
  group_chunks-All d [] h k = h
  group_chunks-All d (c ∷ cs) h (k, ks) =
      let old = or_default (Dict.lookup (section_of c) d) [] in
      group_chunks-All (group_append (section_of c) c d) cs
        (insert-AllGrouped (section_of c) (old ++ (c ∷ [])) d
          (All-append P old (c ∷ []) (lookup-AllGrouped (section_of c) d h) (k, tt)) h)
        ks

  take-All : (n : ℕ) (cs : List PdfChunk) → All P cs → All P (take n cs)
  take-All zero cs h = tt
  take-All (suc n) [] h = tt
  take-All (suc n) (c ∷ cs) (h, hs) = (h, take-All n cs hs)

  select_chunks-All :
      (a : Dict String ℕ) (d : Dict String (List PdfChunk))
      → AllGrouped d
      → All P (select_chunks a d)
  unfolding select_chunks
  select_chunks-All a [] h = tt
  select_chunks-All a ((s, cs) ∷ d) (h, hs) =
      let n = Dict.count_of s a in
      All-append P (take n cs) (select_chunks a d) (take-All n cs h) (select_chunks-All a d hs)

  -- Whatever holds of all chunks of the document holds of the retrieved ones.
  pub retrieve_chunks-All :
      (cs : List PdfChunk) (budget : ℕ) → All P cs → All P (retrieve_chunks_section_aware cs budget)
  unfolding retrieve_chunks_section_aware
  retrieve_chunks-All [] budget h = tt
  retrieve_chunks-All (c ∷ cs) budget h =
      let grouped = group_chunks [] (c ∷ cs) in
      let a = allocate_section_budget grouped budget in
      All-sorted page_order P (select_chunks a grouped)
        (select_chunks-All a grouped (group_chunks-All [] (c ∷ cs) tt h))

length-take : (n : ℕ) (cs : List PdfChunk) → n ≤ length cs → length (take n cs) ≡ n
length-take zero cs h = refl
length-take (suc n) [] h = elim h [ ]
length-take (suc n) (c ∷ cs) h = ap suc (length-take n cs (omega arith))

-- If no section is given more than it has, all that is given is taken.
length-select_chunks :
    (a : Dict String ℕ) (d : Dict String (List PdfChunk))
    → All (λ (s, cs). Dict.count_of s a ≤ length cs) d
    → length (select_chunks a d) ≡ sum_of (λ s. Dict.count_of s a) (Dict.keys d)
unfolding select_chunks
length-select_chunks a [] h = refl
length-select_chunks a ((s, cs) ∷ d) (h, hs) =
    let n = Dict.count_of s a in
    omega (
      arith,
      length-append (take n cs) (select_chunks a d),
      length-take n cs h,
      length-select_chunks a d hs,
    )

total-eq-sum :
    (whole part : Dict String ℕ)
    → Agrees whole part
    → Dict.total part ≡ sum_of (λ s. Dict.count_of s whole) (Dict.keys part)
total-eq-sum whole [] h = refl
total-eq-sum whole ((s, n) ∷ part) (h, hs) = omega (arith, total-eq-sum whole part hs)

-- In a part of the sections, none gets more than its chunks.
module _ (whole : Dict String (List PdfChunk)) (a : Dict String ℕ)
    (bounded : (s : String)
      → Dict.count_of s a ≤ min (length (or_default (Dict.lookup s whole) [])) (quota_of s)) where
  bounded_part :
      (part : Dict String (List PdfChunk))
      → All (λ (s, cs). Dict.lookup s whole ≡ some cs) part
      → All (λ (s, cs). Dict.count_of s a ≤ length cs) part
  bounded_part [] h = tt
  bounded_part ((s, cs) ∷ part) (h, hs) = (ground (arith, bounded s), bounded_part part hs)

found_cons :
    (s : String) (n : List PdfChunk) (whole ds : Dict String (List PdfChunk))
    → contains (Dict.keys ds) s ≡ false
    → All (λ (r, cs). Dict.lookup r whole ≡ some cs) ds
    → All (λ (r, cs). Dict.lookup r ((s, n) ∷ whole) ≡ some cs) ds
unfolding Dict.lookup
found_cons s n whole [] f h = tt
found_cons s n whole ((r, d) ∷ ds) f (h, hs) =
    (ground (arith, eq_iff s r, eq_iff r s), found_cons s n whole ds (ground arith) hs)

pub found_self :
    (ds : Dict String (List PdfChunk))
    → Distinct (Dict.keys ds)
    → All (λ (r, cs). Dict.lookup r ds ≡ some cs) ds
unfolding Dict.lookup
found_self [] u = tt
found_self ((s, d) ∷ ds) (f, u) =
    (ground (arith, eq_iff s s), found_cons s d ds ds f (found_self ds u))

-- Exactly as many chunks are taken as the allocation gives.
length-select_allocated :
    (d : Dict String (List PdfChunk)) (budget : ℕ)
    → Distinct (Dict.keys d)
    → length (select_chunks (allocate_section_budget d budget) d)
      ≡ min budget (Dict.total (desired_counts d))
length-select_allocated d budget u =
    let a = allocate_section_budget d budget in
    let (exact, bounded) = allocate_section_budget-exact d budget u in
    let kept = keys-allocate_section_budget d budget in
    let v : Distinct (Dict.keys a) = rw kept u in
    length-select_chunks a d (bounded_part d a bounded d (found_self d u))
    ∙ (ap (sum_of (λ s. Dict.count_of s a)) (sym kept)
        ∙ (sym (total-eq-sum a a (Agrees-self a v)) ∙ exact))

page_order_total : (c d : PdfChunk) → page_order c d ≡ false → page_order d c ≡ true
page_order_total c d h = ground arith

page_order_trans :
    (c d e : PdfChunk) → page_order c d ≡ true → page_order d e ≡ true → page_order c e ≡ true
page_order_trans c d e h k = ground arith

-- The retrieval returns exactly as many chunks as the budget allows, or as the sections' quotas
-- allow where that is less, in the order of their pages.
pub retrieve_chunks-exact :
    (cs : List PdfChunk) (budget : ℕ)
    → let chosen = retrieve_chunks_section_aware cs budget in
      (length chosen ≡ min budget (Dict.total (desired_counts (group_chunks [] cs))))
      × IsSorted page_order chosen
unfolding retrieve_chunks_section_aware
retrieve_chunks-exact [] budget = unfold group_chunks desired_counts in (omega arith, tt)
retrieve_chunks-exact (c ∷ cs) budget =
    let grouped = group_chunks [] (c ∷ cs) in
    let a = allocate_section_budget grouped budget in
    (
      length-sorted page_order (select_chunks a grouped)
          ∙ length-select_allocated grouped budget (group_chunks-Distinct [] (c ∷ cs) tt),
      sorted-IsSorted page_order page_order_total page_order_trans (select_chunks a grouped),
    )
